-- ===== src/Schedule/Edf/Release.antt =====
-- The release of waiting slots in edf_scheduler.c.
use t_visor.Prelude.{
  ℕ, ◌+◌, ◌%◌, ◌^◌, ◌<◌, ◌≡◌, true, false, List, [], ◌∷◌, arith, leb, ◌==◌, ◌||◌, has, Distinct,
  Bool-cases, inl, inr,
}
use t_visor.Sorted.Laws.{
  Sorted, From-other, insert_sorted-Sorted, has-insert_sorted, Distinct-insert_sorted, tail-Sorted,
}
use t_visor.Schedule.Edf.{EdfState, release, release_loop}
use t_visor.TimerEvent.{put}

-- Both queues are ordered by deadline, and no slot stands in them twice.
pub record Ordered (s : EdfState) (ws : List ℕ) : Type 0 where
  pub ready : Sorted s.dead_line s.ls
  pub waiting : Sorted s.dead_line ws
  pub ready_distinct : Distinct s.ls
  pub waiting_distinct : Distinct ws
  pub apart : (q : ℕ) → has q ws ≡ true → has q s.ls ≡ false

release-Ordered :
    (s : EdfState) (que : ℕ) (rest : List ℕ) → Ordered s (que ∷ rest) → Ordered (release s que) rest
unfolding release
release-Ordered s que rest o =
    let key = put s.dead_line que ((s.dead_line que + s.period (s.vcpu que)) % 2 ^ 64) in
    let out = o.apart que (ground arith) in
    record {
      ready =
          insert_sorted-Sorted key que s.ls
            (From-other s.dead_line key 0 s.ls (λ x h. ground arith) o.ready);
      waiting =
          From-other s.dead_line key 0 rest (λ x h. ground (arith, o.waiting_distinct.0))
            (tail-Sorted s.dead_line que rest o.waiting);
      ready_distinct = Distinct-insert_sorted key que s.ls o.ready_distinct out;
      waiting_distinct = o.waiting_distinct.1;
      apart =
          λ q h. ground (arith, has-insert_sorted key q que s.ls, o.apart q, o.waiting_distinct.0);
    }

-- The release loop keeps the queues in order.
pub release_loop-Ordered :
    (ws : List ℕ) (now : ℕ) (s : EdfState)
    → Ordered s ws
    → Ordered (release_loop ws now s) (release_loop ws now s).ws
unfolding release_loop
release_loop-Ordered [] now s o = record {
  ready = o.ready;
  waiting = tt;
  ready_distinct = o.ready_distinct;
  waiting_distinct = tt;
  apart = λ q h. cc;
}
release_loop-Ordered (que ∷ rest) now s o = elim (Bool-cases (leb now (s.dead_line que))) [
  | inl go ↦ rw go (release_loop-Ordered rest now (release s que) (release-Ordered s que rest o))
  | inr stop ↦ rw stop (record {
    ready = o.ready;
    waiting = o.waiting;
    ready_distinct = o.ready_distinct;
    waiting_distinct = o.waiting_distinct;
    apart = o.apart;
  })
]

has-release : (s : EdfState) (que q : ℕ) → has q (release s que).ls ≡ (q == que || has q s.ls)
unfolding release
has-release s que q =
    has-insert_sorted (put s.dead_line que ((s.dead_line que + s.period (s.vcpu que)) % 2 ^ 64)) q
      que s.ls

-- It neither loses a slot nor makes one up.
pub has-release_loop :
    (ws : List ℕ) (now : ℕ) (s : EdfState) (q : ℕ)
    → let t = release_loop ws now s in (has q t.ls || has q t.ws) ≡ (has q s.ls || has q ws)
unfolding release_loop
has-release_loop [] now s q = ground arith
has-release_loop (que ∷ rest) now s q = elim (Bool-cases (leb now (s.dead_line que))) [
  | inl go ↦
      let ih = has-release_loop rest now (release s que) q in
      let one = has-release s que q in rw go (ground arith)
  | inr stop ↦ rw stop
]

-- Once the earliest deadline has passed nothing is released any more.
pub release_loop_late :
    (now : ℕ) (s : EdfState) (que : ℕ) (rest : List ℕ)
    → s.dead_line que < now
    → release_loop (que ∷ rest) now s ≡ record s { ws = que ∷ rest }
unfolding release_loop
release_loop_late now s que rest h = ground arith
