-- ===== src/MessageChannel/Handoff.antt =====
-- The turns of the sender and the receiver on a channel of message_channel.c.
use t_visor.Prelude.{ℕ, ◌↔◌, ◌≡◌, false, none, ◌∷◌, ◌<◌, arith}
use t_visor.MessageChannel.{
  Channels, Channel, ChannelState, rw_area, ro_area, no_area, add_page, make_wait, wakeup,
  request_write, finish_write, request_read, finish_read, message_channel_write_start,
  message_channel_write_end, message_channel_read_start, message_channel_read_end,
  message_channel_hyp_interface,
}

module _ (s : Channels) (i : ℕ) where
  abbrev c : Channel
  c = s.channels i

  -- On an empty channel on which nobody waits, a whole turn is: the sender writes and finishes, the
  -- receiver reads and finishes. The area is mapped for one side at a time, each mapping is undone
  -- where it was made before the other side's is made, and the channel is empty again.
  pub turn :
      (v w : ℕ)
      → c.state ≡ ChannelState.empty
      → c.receiver_wait ≡ false
      → c.sender_wait ≡ false
      → let t = finish_read i (request_read i w (finish_write i (request_write i v s))) in
        (t.calls
          ≡ add_page c.receiver_id c.addr c.addr_end w no_area
            ∷ add_page c.receiver_id c.addr c.addr_end w ro_area
            ∷ add_page c.sender_id c.addr c.addr_end v no_area
            ∷ add_page c.sender_id c.addr c.addr_end v rw_area
            ∷ s.calls)
        × ((t.channels i).state ≡ ChannelState.empty)
  unfolding request_write finish_write request_read finish_read message_channel_write_start
      message_channel_write_end message_channel_read_start message_channel_read_end
  turn v w e r n = (ground arith, ground arith)

  -- A receiver that asks before the sender has finished is put to wait, and the end of the writing
  -- unmaps the sender, maps the area for the receiver where it asked, and wakes it.
  pub early_reader :
      (w : ℕ)
      → c.state ≡ ChannelState.busy
      → let t = finish_write i (request_read i w s) in
        (t.calls
          ≡ wakeup c.receiver_id
            ∷ add_page c.receiver_id c.addr c.addr_end w ro_area
            ∷ add_page c.sender_id c.addr c.addr_end c.virt_addr no_area
            ∷ make_wait c.receiver_id
            ∷ s.calls)
        × ((t.channels i).state ≡ ChannelState.busy)
        × ((t.channels i).receiver_wait ≡ false)
  unfolding request_read finish_write message_channel_write_end message_channel_read_start
  early_reader w e = (ground arith, ground arith, ground arith)

  -- The end of a reading is taken from whoever calls it: called while the sender writes, it leaves
  -- the sender's mapping in place, so that after the next turn of the sender, at another address,
  -- the receiver reads what the sender can still write.
  pub forged_read_end :
      (w v' : ℕ)
      → c.state ≡ ChannelState.empty
      → c.receiver_wait ≡ false
      → c.sender_wait ≡ false
      → (v : ℕ)
      → let t =
          request_read i w
            (finish_write i (request_write i v' (finish_read i (request_write i v s)))) in
        t.calls
        ≡ add_page c.receiver_id c.addr c.addr_end w ro_area
          ∷ add_page c.sender_id c.addr c.addr_end v' no_area
          ∷ add_page c.sender_id c.addr c.addr_end v' rw_area
          ∷ add_page c.receiver_id c.addr c.addr_end v no_area
          ∷ add_page c.sender_id c.addr c.addr_end v rw_area
          ∷ s.calls
  unfolding request_write finish_write request_read finish_read message_channel_write_start
      message_channel_write_end message_channel_read_start message_channel_read_end
  forged_read_end w v' e r n v = ground arith

-- The hypercall goes beyond the array exactly for the channel numbers from 16 on, in the four
-- operations on a channel.
pub message_channel_hyp_interface_overrun :
    (r0 r1 r2 r3 : ℕ) (s : Channels)
    → (message_channel_hyp_interface r0 r1 r2 r3 s ≡ none) ↔ ((1 < r0) × (r0 < 6) × (15 < r1))
unfolding message_channel_hyp_interface
message_channel_hyp_interface_overrun r0 r1 r2 r3 s = (λ a. ground arith, λ a. ground arith)
