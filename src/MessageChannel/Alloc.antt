-- ===== src/MessageChannel/Alloc.antt =====
-- The areas that message_channel.c gives out.
use t_visor.Prelude.{
  ==_self, ℕ, ◌+◌, ◌%◌, ◌^◌, ◌≤◌, ◌<◌, ◌≡◌, refl, false, some, arith, leb, ◌==◌, ◌||◌, Bool-cases,
  inl, inr,
}
use t_visor.MessageChannel.{Channels, message_channel_alloc, page_up}

-- Each area made so far starts at a page, ends at or before the limit and before the next free page,
-- and no two of them overlap.
pub record Laid (s : Channels) : Type 0 where
  pub limit : s.area_limit < 2 ^ 32
  pub limit_page : s.area_limit % 4096 ≡ 0
  pub free_page : s.area_start % 4096 ≡ 0
  pub inside :
      (i : ℕ)
      → i < s.channel_num
      → ((s.channels i).addr ≤ (s.channels i).addr_end)
        × ((s.channels i).addr_end ≤ s.area_start)
        × ((s.channels i).addr_end ≤ s.area_limit)
  pub apart : (i j : ℕ) → i < j → j < s.channel_num → (s.channels i).addr_end ≤ (s.channels j).addr

fits :
    (x limit : ℕ)
    → limit < 2 ^ 32
    → limit % 4096 ≡ 0
    → x < limit
    → (x ≤ page_up x) × (page_up x ≤ limit) × (page_up x % 4096 ≡ 0)
fits x limit a b c = omega arith

has_room : (x limit n : ℕ) → x < 2 ^ 32 → (leb limit (x % 2 ^ 32) || leb 16 n) ≡ false → x < limit
has_room x limit n w h =
    let e : x % 2 ^ 32 ≡ x = omega arith in
    let h' : (leb limit x || leb 16 n) ≡ false = rw e at h in ground arith

-- If the size does not wrap around 2^32, an allocation keeps the areas apart and inside, whether it
-- succeeds or not.
pub message_channel_alloc-Laid :
    (s : Channels) (sender receiver size : ℕ)
    → Laid s
    → s.area_start + size < 2 ^ 32
    → Laid (message_channel_alloc sender receiver size s).1
unfolding message_channel_alloc
message_channel_alloc-Laid s sender receiver size l w =
    elim (Bool-cases (leb s.area_limit ((s.area_start + size) % 2 ^ 32) || leb 16 s.channel_num)) [
      | inl full ↦ rw full (record {
        limit = l.limit;
        limit_page = l.limit_page;
        free_page = l.free_page;
        inside = l.inside;
        apart = l.apart;
      })
      | inr room ↦
          let (up, below, page) =
            fits (s.area_start + size) s.area_limit l.limit l.limit_page
              (has_room (s.area_start + size) s.area_limit s.channel_num w room) in
          rw room (record {
            limit = l.limit;
            limit_page = l.limit_page;
            free_page = page;
            inside = λ i h. elim (Bool-cases (s.channel_num == i)) [
              | inl new ↦ rw new (omega arith, omega arith, omega arith)
              | inr old ↦ let (x, y, z) = l.inside i (ground arith) in rw old (x, omega arith, z)
            ];
            apart = λ i j h k.
                let old : (s.channel_num == i) ≡ false = ground arith in
                elim (Bool-cases (s.channel_num == j)) [
                  | inl new ↦ rw (old, new) ((l.inside i (ground arith)).1)
                  | inr older ↦ rw (old, older) (l.apart i j h (ground arith))
                ];
          })
    ]

-- On a free channel, a size with which the start of the free part wraps around 2^32, and which is at
-- most 2^32 - 4096, passes the test: the area that is given out starts where the free part did and
-- ends before it starts, and the free part then starts at that end, below where it did. The start of
-- the free part is that of a page and below the limit.
pub message_channel_alloc_wraps :
    (s : Channels) (sender receiver size : ℕ)
    → s.channel_num < 16
    → s.area_start < 2 ^ 32
    → s.area_start % 4096 ≡ 0
    → s.area_start < s.area_limit
    → size < 2 ^ 32
    → 2 ^ 32 ≤ s.area_start + size
    → size + 4096 ≤ 2 ^ 32
    → let (made, s') = message_channel_alloc sender receiver size s in
      (made ≡ some s.channel_num)
      × ((s'.channels s.channel_num).addr ≡ s.area_start)
      × ((s'.channels s.channel_num).addr_end ≡ s'.area_start)
      × (s'.area_start < s.area_start)
unfolding message_channel_alloc
message_channel_alloc_wraps s sender receiver size n a p b c d e =
    let low : (s.area_start + size) % 2 ^ 32 < s.area_limit = omega arith in
    let down : page_up (s.area_start + size) < s.area_start = omega arith in
    let open_ : (leb s.area_limit ((s.area_start + size) % 2 ^ 32) || leb 16 s.channel_num)
        ≡ false =
      ground arith in
    rw (open_, ==_self s.channel_num) (refl, refl, refl, down)
