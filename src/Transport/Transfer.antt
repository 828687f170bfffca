-- ===== src/Transport/Transfer.antt =====
-- A packet's way from the queue of one node to an extension of another.
use uwb_core.Common.{
  ℕ, ◌+◌, ◌-◌, ◌<◌, ◌≡◌, ◌⊎◌, refl, sym, ap, ◌∙◌, Bool, true, false, List, [], ◌∷◌, ◌++◌, ◌&&◌,
  ◌||◌, not, some, if◌then◌else◌, ◌==◌, length, take, drop, length-append, take-append, drop-append,
  drop-append_more, arith,
}
use mathlib.Core.List.{append_assoc}
use uwb_core.Pan.Frame.{bytes_of, number_of, field}
use uwb_core.Pan.Frame.RoundTrip.{number_of-bytes_of}
use uwb_core.Transport.{
  Header, header_size, header_array, header_of, transport_fctrl, ack_requested, frame_type_ack,
  RxPacket, Extension, Transport,
}
use uwb_core.Transport.Extensions.{get_extension, pass_up, pass_up_all, process_rx_queue}
use uwb_core.Transport.Callbacks.{
  Received, payload, data_fctrl, transport_code, is_dup, rx_complete_cb,
}
use uwb_core.Transport.Callbacks.Outcome.{packet_of, takes, is_ack, rx_complete_cb-Reception}
use uwb_core.Transport.Enqueue.{with_trailer}
use uwb_core.Transport.Write.{tail_word, tx_len, tx_header}
use uwb_core.Transport.Write.Memory.{next_header, frame_bytes, length-header_array}

-- The fields of a header fit their widths.
pub record HeaderFits (h : Header) : Type 0 where
  pub fctrl_fits : h.fctrl < 65536
  pub seq_num_fits : h.seq_num < 256
  pub pan_id_fits : h.pan_id < 65536
  pub dst_address_fits : h.dst_address < 65536
  pub src_address_fits : h.src_address < 65536
  pub code_fits : h.code < 65536
  pub tsp_code_fits : h.tsp_code < 65536

-- Whoever reads the bytes of a header, with anything behind them, reads that header.
pub header_of-header_array :
    (h : Header) (rest : List ℕ) → HeaderFits h → header_of (header_array h ++ rest) ≡ h
unfolding header_of header_array field bytes_of
header_of-header_array h rest f =
    rw
      (
        number_of-bytes_of 2 h.fctrl f.fctrl_fits,
        number_of-bytes_of 1 h.seq_num f.seq_num_fits,
        number_of-bytes_of 2 h.pan_id f.pan_id_fits,
        number_of-bytes_of 2 h.dst_address f.dst_address_fits,
        number_of-bytes_of 2 h.src_address f.src_address_fits,
        number_of-bytes_of 2 h.code f.code_fits,
        number_of-bytes_of 2 h.tsp_code f.tsp_code_fits,
      )
      refl

module _ (dst tsp_code retries : ℕ) (om : List ℕ) where
  abbrev pub packet : List ℕ
  packet = with_trailer dst tsp_code retries om

  pub length-packet : length packet ≡ length om + 6
  unfolding with_trailer bytes_of
  length-packet = omega (
    arith,
    length-append (om ++ bytes_of 2 dst ++ bytes_of 2 tsp_code) (bytes_of 2 retries),
    length-append (om ++ bytes_of 2 dst) (bytes_of 2 tsp_code),
    length-append om (bytes_of 2 dst),
  )

  abbrev pub trailer : List ℕ
  trailer = bytes_of 2 dst ++ (bytes_of 2 tsp_code ++ bytes_of 2 retries)

  pub packet_parts : packet ≡ om ++ trailer
  unfolding with_trailer
  packet_parts =
      append_assoc (om ++ bytes_of 2 dst) (bytes_of 2 tsp_code) (bytes_of 2 retries)
      ∙ append_assoc om (bytes_of 2 dst) (bytes_of 2 tsp_code ++ bytes_of 2 retries)

  tail_word_at : (j k : ℕ) → j + k ≡ 6 → tail_word k packet ≡ number_of (take 2 (drop j trailer))
  unfolding field
  tail_word_at j k e =
      let at : length packet - k ≡ length om + j = omega (arith, length-packet) in
      ap (λ n. field n 2 packet) at
      ∙ ap (λ p. field (length om + j) 2 p) packet_parts
      ∙ ap (λ bytes. number_of (take 2 bytes)) (drop-append_more (length om + j) j om trailer refl)

  -- The words of the trailer are read back.
  pub tail_word-dst : dst < 65536 → tail_word 6 packet ≡ dst
  unfolding bytes_of
  tail_word-dst lt = tail_word_at 0 6 refl ∙ number_of-bytes_of 2 dst lt

  pub tail_word-tsp_code : tsp_code < 65536 → tail_word 4 packet ≡ tsp_code
  unfolding bytes_of
  tail_word-tsp_code lt = tail_word_at 2 4 refl ∙ number_of-bytes_of 2 tsp_code lt

  pub tail_word-retries : retries < 65536 → tail_word 2 packet ≡ retries
  unfolding bytes_of
  tail_word-retries lt = tail_word_at 4 2 refl ∙ number_of-bytes_of 2 retries lt

  -- and the payload is what stood before it
  pub take-packet : take (tx_len packet) packet ≡ om
  take-packet =
      let n : tx_len packet ≡ length om = omega (arith, length-packet) in
      ap (λ k. take k packet) n
      ∙ ap (λ p. take (length om) p) packet_parts
      ∙ take-append (length om) om trailer refl

pass_up_all-one :
    {S : Type 0} (xs : List (Extension S)) (p : RxPacket) (e : Extension S) (s : S)
    → get_extension p.tsp_code xs ≡ some e
    → pass_up_all xs (p ∷ []) s ≡ e.receive_cb p.uid p.data_bytes s
unfolding pass_up_all pass_up
pass_up_all-one xs p e s found = rw (found, pass_up) refl

process_rx_queue-one :
    {S : Type 0} (u : Transport S) (p : RxPacket) (e : Extension S)
    → u.rx_q ≡ p ∷ []
    → u.has_init ≡ true
    → get_extension p.tsp_code u.extension_list ≡ some e
    → (process_rx_queue u).app ≡ e.receive_cb p.uid p.data_bytes u.app
unfolding process_rx_queue
process_rx_queue-one u p e q up found =
    rw (q, up) (pass_up_all-one u.extension_list p e u.app found)

all_true :
    {a b c d : Bool} → a ≡ true → b ≡ true → c ≡ true → d ≡ false → a && (b && (c && not d)) ≡ true
all_true p q r s = rw (p, q, r, s) refl

addressed_true : (a m : ℕ) → (a ≡ m) ⊎ (a ≡ 0xffff) → (a == m) || (a == 0xffff) ≡ true
addressed_true a m h = ground arith

-- the frame types of the sender, with and without acknowledgements
data_fctrl_own :
    (acks : Bool)
    → let f = if acks then transport_fctrl + ack_requested else transport_fctrl in
      ((f == frame_type_ack) ≡ false) × (data_fctrl f ≡ true) × (f < 65536)
data_fctrl_own true = ground arith
data_fctrl_own false = ground arith

module _ {S : Type 0} (t r : Transport S) (dst tsp_code retries : ℕ) (om : List ℕ) where
  abbrev pub own_packet : List ℕ
  own_packet = packet dst tsp_code retries om

  -- what the sender's trailer and fields have to fit
  pub record Sendable : Type 0 where
    pub dst_fits : dst < 65536
    pub tsp_code_fits : tsp_code < 65536
    pub uid_fits : t.dev.uid < 65536
    pub pan_id_fits : t.dev.pan_id < 65536

  -- `x` is the reception of the packet's frame, in a buffer that may hold more behind it.
  pub record Receives (x : Received) (junk : List ℕ) : Type 0 where
    pub bytes : x.rxbuf ≡ frame_bytes own_packet t ++ junk
    pub len : x.frame_len ≡ length (frame_bytes own_packet t)
    pub type : x.fctrl ≡ (next_header own_packet t).fctrl
    pub buffer : x.has_mbuf && x.copied ≡ true

  header_fits : Sendable → HeaderFits (next_header own_packet t)
  unfolding tx_header
  header_fits s = record {
    fctrl_fits = (data_fctrl_own t.request_acks).2;
    seq_num_fits = omega arith;
    pan_id_fits = s.pan_id_fits;
    dst_address_fits = rw (tail_word-dst dst tsp_code retries om s.dst_fits) s.dst_fits;
    src_address_fits = s.uid_fits;
    code_fits = omega arith;
    tsp_code_fits = rw (tail_word-tsp_code dst tsp_code retries om s.tsp_code_fits) s.tsp_code_fits;
  }

  -- behind the header: the payload, and what else is in the buffer
  rxbuf_parts :
      (x : Received) (junk : List ℕ)
      → Receives x junk
      → x.rxbuf ≡ header_array (next_header own_packet t) ++ (om ++ junk)
  rxbuf_parts x junk c =
      c.bytes
      ∙ ap (λ body. header_array (next_header own_packet t) ++ body ++ junk)
          (take-packet dst tsp_code retries om)
      ∙ append_assoc (header_array (next_header own_packet t)) om junk

  header_read :
      (x : Received) (junk : List ℕ)
      → Sendable
      → Receives x junk
      → header_of x.rxbuf ≡ next_header own_packet t
  header_read x junk s c =
      ap header_of (rxbuf_parts x junk c)
      ∙ header_of-header_array (next_header own_packet t) (om ++ junk) (header_fits s)

  payload_read : (x : Received) (junk : List ℕ) → Receives x junk → payload x ≡ om
  payload_read x junk c =
      let size = length-header_array (next_header own_packet t) in
      let len : x.frame_len - header_size ≡ length om = omega (
        arith,
        c.len,
        size,
        length-append (header_array (next_header own_packet t))
            (take (tx_len own_packet) own_packet),
        ap length (take-packet dst tsp_code retries om),
      ) in
      ap (λ n. take n (drop header_size x.rxbuf)) len
      ∙ ap (λ bytes. take (length om) (drop header_size bytes)) (rxbuf_parts x junk c)
      ∙ ap (λ bytes. take (length om) bytes)
          (drop-append header_size (header_array (next_header own_packet t)) (om ++ junk)
            (sym size))
      ∙ take-append (length om) om junk refl

  packet_read :
      (x : Received) (junk : List ℕ)
      → Sendable
      → Receives x junk
      → packet_of x ≡ record { tsp_code = tsp_code; uid = t.dev.uid; data_bytes = om }
  unfolding tx_header
  packet_read x junk s c =
      let h = header_read x junk s c in
      rw (h, payload_read x junk c, tail_word-tsp_code dst tsp_code retries om s.tsp_code_fits) refl

  takes_it :
      (x : Received) (junk : List ℕ)
      → Sendable
      → Receives x junk
      → (dst ≡ r.dev.my_short_address) ⊎ (dst ≡ 0xffff)
      → is_dup x r ≡ false
      → (is_ack x ≡ false) × (takes x r ≡ true)
  unfolding tx_header
  takes_it x junk s c addressed news =
      let (no_ack, own, _) = data_fctrl_own t.request_acks in
      let h = header_read x junk s c in
      let at : (header_of x.rxbuf).dst_address ≡ dst =
        ap (λ k. k.dst_address) h ∙ tail_word-dst dst tsp_code retries om s.dst_fits in
      let code : transport_code (header_of x.rxbuf).code ≡ true = rw h refl in
      (
        rw c.type no_ack,
        all_true (rw c.type own) code
            (addressed_true (header_of x.rxbuf).dst_address r.dev.my_short_address
              (rw at addressed))
            news,
      )

  abbrev pub delivered : RxPacket
  delivered = record { tsp_code = tsp_code; uid = t.dev.uid; data_bytes = om }

  -- A packet that is queued for a node and written is what the node's receiver queues and hands to the
  -- extension with the packet's code: the payload is whole, and the sender is the one that sent it.
  pub transfer :
      (x : Received) (junk : List ℕ) (e : Extension S)
      → Sendable
      → Receives x junk
      → (dst ≡ r.dev.my_short_address) ⊎ (dst ≡ 0xffff)
      → is_dup x r ≡ false
      → r.rx_q ≡ []
      → r.has_init ≡ true
      → get_extension tsp_code r.extension_list ≡ some e
      → (process_rx_queue (rx_complete_cb x r).1).app ≡ e.receive_cb t.dev.uid om r.app
  transfer x junk e s c addressed news empty up found =
      let (no_ack, takes) = takes_it x junk s c addressed news in
      let (_, q, _, (init, exts, app)) = rx_complete_cb-Reception x r no_ack in
      let one : (rx_complete_cb x r).1.rx_q ≡ delivered ∷ [] =
        q ∙ rw (empty, takes, c.buffer, packet_read x junk s c) refl in
      process_rx_queue-one (rx_complete_cb x r).1 delivered e one (init ∙ up) (rw exts found)
      ∙ rw app refl
