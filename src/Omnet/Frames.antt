-- ===== src/Omnet/Frames.antt =====
-- What the sink reads of a packet that the basic application wrote.
use nsb_ci.Prelude.{
  ℕ, zero, suc, ◌+◌, ◌*◌, ◌/◌, ◌%◌, ◌^◌, ◌≤◌, ◌<◌, ltb, Bytes, [], ◌∷◌, ◌++◌, ◌≡◌, refl, arith,
  length, length-append, length-take, take, take_all, drop-length, ap, sym, ◌∙◌, if_false, ◌↔◌,
}
use nsb_ci.Daemon.{ok, ok_injective}
use nsb_ci.Omnet.Frame.{
  u16, write_u16, write_name, write_frame, Frame, read_u16, read_name, after_name, read_frame,
}

length-take_u16 : (s : Bytes) (n : ℕ) → n ≤ length s → length (take n s) ≡ n
length-take_u16 s zero h = refl
length-take_u16 [] (suc n) h = absurd (omega arith)
length-take_u16 (c ∷ s) (suc n) h = omega (arith, length-take_u16 s n (omega arith))

u16_le : (n : ℕ) → u16 n ≤ n
u16_le n = omega arith

read_u16-write_u16 : (n : ℕ) (s : Bytes) → read_u16 (write_u16 n ++ s) ≡ ok (n, s)
unfolding read_u16
read_u16-write_u16 n s =
    let e : n % 256 + 256 * (n / 256) ≡ n = omega arith in ap (λ k. ok (k, s)) e

read_name-append : (s rest : Bytes) → read_name (length s) (s ++ rest) ≡ s
unfolding read_name
read_name-append [] rest = refl
read_name-append (c ∷ s) rest = ap (λ l. c ∷ l) (read_name-append s rest)

-- The name that is written for `s`.
abbrev pub cut : Bytes → Bytes
cut s = take (u16 (length s)) s

length-cut : (s : Bytes) → length (cut s) ≡ u16 (length s)
length-cut s = length-take_u16 s (u16 (length s)) (u16_le (length s))

read_u16-write_name :
    (s rest : Bytes) → read_u16 (write_name s ++ rest) ≡ ok (length (cut s), cut s ++ rest)
unfolding write_name
read_u16-write_name s rest =
    read_u16-write_u16 (u16 (length s)) (cut s ++ rest)
    ∙ ap (λ k. ok (k, cut s ++ rest)) (sym (length-cut s))

after_name_lem : (s rest : Bytes) → after_name (length s) (s ++ rest) ≡ ok rest
unfolding after_name
after_name_lem s rest =
    let l = length-append s rest in
    if_false (ltb (length (s ++ rest)) (length s)) _ _ (ground (arith, l))
    ∙ ap ok (drop-length s rest)

-- Whatever the names and the payload are, the sink reads a packet to its end: the payload whole, and of
-- each name the first bytes, as many as its length modulo 2 ^ 16.
pub read_frame-write_frame :
    (src dest payload : Bytes)
    → read_frame (write_frame src dest payload)
      ≡ ok (record {
        src_id = take (length src % 2 ^ 16) src;
        dest_id = take (length dest % 2 ^ 16) dest;
        payload = payload;
      })
unfolding read_frame write_frame
read_frame-write_frame src dest payload =
    rw
      (
        read_u16-write_name src (write_name dest ++ payload),
        after_name_lem (cut src) (write_name dest ++ payload),
        read_u16-write_name dest payload,
        read_name-append (cut src) (write_name dest ++ payload),
        read_name-append (cut dest) payload,
        drop-length (cut dest) payload,
      )
      refl

cut_whole : (s : Bytes) → length s < 2 ^ 16 → cut s ≡ s
cut_whole s h = take_all (u16 (length s)) s (omega arith)

cut_short : (s : Bytes) → cut s ≡ s → length s < 2 ^ 16
cut_short s e = omega (arith, ap length e, length-take {0} (u16 (length s)) s)

-- The sink reads what the application wrote exactly when both names are shorter than 2 ^ 16 bytes.
pub read_frame-whole_iff :
    (src dest payload : Bytes)
    → (read_frame (write_frame src dest payload)
        ≡ ok (record { src_id = src; dest_id = dest; payload = payload }))
      ↔ ((length src < 2 ^ 16) × (length dest < 2 ^ 16))
read_frame-whole_iff src dest payload = (
  λ e.
      let f = ok_injective (sym (read_frame-write_frame src dest payload) ∙ e) in
      (
        cut_short src (ap (λ (r : Frame). r.src_id) f),
        cut_short dest (ap (λ (r : Frame). r.dest_id) f),
      ),
  λ h. rw (read_frame-write_frame src dest payload, cut_whole src h.0, cut_whole dest h.1) refl,
)
