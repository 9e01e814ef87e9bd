-- ===== src/MessageChannel/Tests.antt =====
-- A channel of message_channel.c from VCPU 1 to VCPU 2.
use t_visor.Prelude.{◌<◌, ◌↔◌, ◌≡◌, refl, false, none, some, [], ◌∷◌, arith}
use t_visor.MessageChannel.{
  Channels, Channel, ChannelState, rw_area, ro_area, no_area, add_page, message_channel_alloc,
  request_write, finish_write, request_read, finish_read, message_channel_hyp_interface,
}
use t_visor.MessageChannel.Alloc.{Laid, message_channel_alloc-Laid, message_channel_alloc_wraps}
use t_visor.MessageChannel.Handoff.{turn, forged_read_end, message_channel_hyp_interface_overrun}

-- The channel's area is the page at 0x1000.
abbrev channel : ChannelState → Channel
channel state = record {
  id = 0;
  sender_id = 1;
  receiver_id = 2;
  state = state;
  addr = 0x1000;
  addr_end = 0x2000;
  virt_addr = 0x8000;
  sender_wait = false;
  receiver_wait = false;
  wait_arg = 0;
}

abbrev one : ChannelState → Channels
one state = record {
  channels = λ i. channel state;
  channel_num = 1;
  area_start = 0x2000;
  area_limit = 0x9000;
  calls = [];
  aborts = 0;
}

one-Laid : Laid (one ChannelState.empty)
one-Laid = record {
  limit = omega arith;
  limit_page = refl;
  free_page = refl;
  inside = λ i h. (omega arith, omega arith, omega arith);
  apart = λ i j h k. absurd (omega arith);
}

message_channel_alloc-Laid_example :
    Laid (message_channel_alloc 1 3 0x1800 (one ChannelState.empty)).1
message_channel_alloc-Laid_example =
    message_channel_alloc-Laid (one ChannelState.empty) 1 3 0x1800 one-Laid (omega arith)

message_channel_alloc_wraps_example :
    let (made, s') = message_channel_alloc 1 3 0xfffff000 (one ChannelState.empty) in
    (made ≡ some 1)
    × ((s'.channels 1).addr ≡ 0x2000)
    × ((s'.channels 1).addr_end ≡ s'.area_start)
    × (s'.area_start < 0x2000)
message_channel_alloc_wraps_example =
    message_channel_alloc_wraps (one ChannelState.empty) 1 3 0xfffff000 (omega arith) (omega arith)
      refl (omega arith) (omega arith) (omega arith) (omega arith)

turn_example :
    let t =
      finish_read 0 (
        request_read 0 0xa000 (finish_write 0 (request_write 0 0x8000 (one ChannelState.empty)))) in
    (t.calls
      ≡ add_page 2 0x1000 0x2000 0xa000 no_area
        ∷ add_page 2 0x1000 0x2000 0xa000 ro_area
        ∷ add_page 1 0x1000 0x2000 0x8000 no_area
        ∷ add_page 1 0x1000 0x2000 0x8000 rw_area
        ∷ [])
    × ((t.channels 0).state ≡ ChannelState.empty)
turn_example = turn (one ChannelState.empty) 0 0x8000 0xa000 refl refl refl

forged_read_end_example :
    let t = request_read 0 0xa000 (
      finish_write 0 (
        request_write 0 0xc000
          (finish_read 0 (request_write 0 0x8000 (one ChannelState.empty))))) in
    t.calls
    ≡ add_page 2 0x1000 0x2000 0xa000 ro_area
      ∷ add_page 1 0x1000 0x2000 0xc000 no_area
      ∷ add_page 1 0x1000 0x2000 0xc000 rw_area
      ∷ add_page 2 0x1000 0x2000 0x8000 no_area
      ∷ add_page 1 0x1000 0x2000 0x8000 rw_area
      ∷ []
forged_read_end_example =
    forged_read_end (one ChannelState.empty) 0 0xa000 0xc000 refl refl refl 0x8000

message_channel_hyp_interface_overrun_example :
    (message_channel_hyp_interface 2 16 0 0 (one ChannelState.empty) ≡ none)
    ↔ ((1 < 2) × (2 < 6) × (15 < 16))
message_channel_hyp_interface_overrun_example =
    message_channel_hyp_interface_overrun 2 16 0 0 (one ChannelState.empty)
