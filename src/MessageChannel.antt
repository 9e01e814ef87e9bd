-- ===== src/MessageChannel.antt =====
-- message_channel.c: memory areas that a sender and a receiver VCPU map by turns, and the hypercall
-- on them. What the operations do to VCPUs and page tables is a list of calls, the last one first:
-- `vcpu_add_page`, which the sources do not define, `vcpu_make_wait` and `vcpu_wakeup` of vcpu.c.
pub mod Alloc
pub mod Handoff
mod Tests
use t_visor.Prelude.{
  ℕ, zero, suc, ◌+◌, ◌-◌, ◌*◌, ◌/◌, ◌%◌, ◌^◌, Bool, true, false, ◌&&◌, ◌||◌, Option, none, some,
  List, [], ◌∷◌, ltb, leb, ◌==◌, if◌then◌else◌,
}

pub data ChannelState : Type 0 where
  empty ready busy : ChannelState

-- `message_channel_t`.
pub record Channel : Type 0 where
  pub id : ℕ
  pub sender_id : ℕ
  pub receiver_id : ℕ
  pub state : ChannelState
  pub addr : ℕ
  pub addr_end : ℕ
  pub virt_addr : ℕ
  pub sender_wait : Bool
  pub receiver_wait : Bool
  pub wait_arg : ℕ

-- The low attributes of a mapped area: read and write, read only, or none.
pub data Access : Type 0 where
  rw_area ro_area no_area : Access

pub data Call : Type 0 where
  -- The VCPU, the physical area from start to end, and where it is mapped.
  add_page : ℕ → ℕ → ℕ → ℕ → Access → Call
  make_wait : ℕ → Call
  wakeup : ℕ → Call

pub record Channels : Type 0 where
  -- The array `channels` of 16 entries.
  pub channels : ℕ → Channel
  pub channel_num : ℕ
  pub area_start : ℕ
  -- `&_channel_area_end`.
  pub area_limit : ℕ
  pub calls : List Call
  pub aborts : ℕ

abbrev pub set_channel : (ℕ → Channel) → ℕ → Channel → ℕ → Channel
set_channel f i c j = if i == j then c else f j

-- `(x + 0xfff) & 0xfffff000` on 32 bits.
abbrev pub page_up : ℕ → ℕ
page_up x = (x + 0xfff) % 2 ^ 32 / 4096 * 4096

-- The parameters of type UB are cut to 8 bits. `none` is NULL, with a `tv_abort`.
pub message_channel_alloc : ℕ → ℕ → ℕ → Channels → Option ℕ × Channels
message_channel_alloc sender_id receiver_id size s =
    if leb s.area_limit ((s.area_start + size) % 2 ^ 32) || leb 16 s.channel_num
    then (none, record s { aborts = s.aborts + 1 })
    else (let top = page_up (s.area_start + size) in
        (
          some s.channel_num,
          record s {
            channels = set_channel s.channels s.channel_num (record (s.channels s.channel_num) {
              id = s.channel_num % 2 ^ 8;
              receiver_id = receiver_id % 2 ^ 8;
              sender_id = sender_id % 2 ^ 8;
              addr = s.area_start;
              state = ChannelState.empty;
              addr_end = top;
              receiver_wait = false;
              sender_wait = false;
            });
            channel_num = s.channel_num + 1;
            area_start = top;
          },
        ))

-- The loop of `message_channel_find`, with the entries left; -1 is 2^32 - 1.
find_loop : ℕ → ℕ → ℕ → ℕ → Channels → ℕ
find_loop zero i sender_id receiver_id s = 2 ^ 32 - 1
find_loop (suc n) i sender_id receiver_id s =
    let later = find_loop n (suc i) sender_id receiver_id s in
    if (s.channels i).sender_id == sender_id && (s.channels i).receiver_id == receiver_id
    then i
    else later

pub message_channel_find : ℕ → ℕ → Channels → ℕ
unfolding find_loop
message_channel_find sender_id receiver_id s =
    find_loop s.channel_num 0 (sender_id % 2 ^ 8) (receiver_id % 2 ^ 8) s

-- Each of the four operations maps or unmaps the area for one side and sets the state.
abbrev pub call : Call → Channels → Channels
call c s = record s { calls = c ∷ s.calls }

abbrev pub update : ℕ → Channel → Channels → Channels
update i c s = record s { channels = set_channel s.channels i c }

pub message_channel_write_start : ℕ → ℕ → Channels → Channels
message_channel_write_start i virt_addr s =
    let c = s.channels i in
    update i (record c { state = ChannelState.busy; virt_addr = virt_addr })
      (call (add_page c.sender_id c.addr c.addr_end virt_addr rw_area) s)

pub message_channel_write_end : ℕ → Channels → Channels
message_channel_write_end i s =
    let c = s.channels i in
    update i (record c { state = ChannelState.ready })
      (call (add_page c.sender_id c.addr c.addr_end c.virt_addr no_area) s)

pub message_channel_read_start : ℕ → ℕ → Channels → Channels
message_channel_read_start i virt_addr s =
    let c = s.channels i in
    update i (record c { state = ChannelState.busy; virt_addr = virt_addr })
      (call (add_page c.receiver_id c.addr c.addr_end virt_addr ro_area) s)

pub message_channel_read_end : ℕ → Channels → Channels
message_channel_read_end i s =
    let c = s.channels i in
    update i (record c { state = ChannelState.empty })
      (call (add_page c.receiver_id c.addr c.addr_end c.virt_addr no_area) s)

-- The cases 2 to 5 of `message_channel_hyp_interface` on a channel of the array.
pub request_write : ℕ → ℕ → Channels → Channels
request_write i arg s =
    let c = s.channels i in
    elim c.state [
      | ChannelState.empty ↦ message_channel_write_start i arg s
      | _ ↦
          call (make_wait c.sender_id)
            (update i (record c { sender_wait = true; wait_arg = arg }) s)
    ]

pub finish_write : ℕ → Channels → Channels
finish_write i s =
    let s1 = message_channel_write_end i s in
    let c = s1.channels i in
    if c.receiver_wait
    then call (wakeup c.receiver_id)
        (message_channel_read_start i c.wait_arg (update i (record c { receiver_wait = false }) s1))
    else s1

pub request_read : ℕ → ℕ → Channels → Channels
request_read i arg s =
    let c = s.channels i in
    elim c.state [
      | ChannelState.ready ↦ message_channel_read_start i arg s
      | _ ↦
          call (make_wait c.receiver_id)
            (update i (record c { receiver_wait = true; wait_arg = arg }) s)
    ]

pub finish_read : ℕ → Channels → Channels
finish_read i s =
    let s1 = message_channel_read_end i s in
    let c = s1.channels i in
    if c.sender_wait
    then call (wakeup c.sender_id)
        (message_channel_write_start i c.wait_arg (update i (record c { sender_wait = false }) s1))
    else s1

-- The guest's registers r0 to r3 as the call finds them; the result is r0. `none` is an access
-- beyond the array: the guest's channel number is not tested.
pub message_channel_hyp_interface : ℕ → ℕ → ℕ → ℕ → Channels → Option (ℕ × Channels)
message_channel_hyp_interface r0 r1 r2 r3 s =
    let (made, s1) = message_channel_alloc r1 r2 r3 s in
    if r0 == 0
    then some (elim made [ none ↦ 2 ^ 32 - 1 | some i ↦ (s1.channels i).id ], s1)
    else if r0 == 1
    then some (message_channel_find r1 r2 s, s)
    else if ltb 5 r0
    then some (r0, record s { aborts = s.aborts + 1 })
    else if leb 16 r1
    then none
    else if r0 == 2
    then some (r0, request_write r1 r2 s)
    else if r0 == 3
    then some (r0, finish_write r1 s)
    else if r0 == 4
    then some (r0, request_read r1 r2 s)
    else some (r0, finish_read r1 s)
