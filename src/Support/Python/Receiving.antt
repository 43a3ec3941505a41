-- ===== src/Support/Python/Receiving.antt =====
-- `_recv_exact` of support/python/_envproxy_hook.py, whatever the pieces in which the bytes come.
use env_proxy.Prelude.{
  ℕ, zero, suc, ◌+◌, ◌-◌, ◌≤◌, ◌<◌, ◌≡◌, refl, ap, sym, ◌∙◌, inl, inr, [], ◌∷◌, ◌++◌, append-nil,
  append_assoc, Option, none, some, Result, ok, err, true, false, length, take, drop, length-take,
  length-drop, drop-drop, arith, Bool-cases,
}
use env_proxy.Prelude.Bytes.{Bytes, is_empty}
use env_proxy.Prelude.Action.{continue, fail}
use env_proxy.Io.{IoError, Stream}
use env_proxy.Support.Socket.{Socket, Lost, lost, recv, chunk, rest_of, caught_in, at_end}
use env_proxy.Support.Python.{recv_loop, recv_exact}

-- The socket after a call that found something.
abbrev after : Socket → ℕ → Socket
after s n = record s { stream = rest_of s.stream (chunk s n); calls = s.calls + 1 }

abbrev piece : Socket → ℕ → Bytes
piece s n = take (chunk s n) s.stream.incoming

recv-there :
    (n : ℕ) (s : Socket)
    → is_empty s.stream.incoming ≡ false
    → recv n s ≡ (ok (piece s n), after s n)
unfolding recv
recv-there n s h = rw (h, recv) refl

abbrev empty : Bytes
empty = []

take-non_empty : (k : ℕ) (s : Bytes) → 1 ≤ k → is_empty s ≡ false → is_empty (take k s) ≡ false
take-non_empty zero s le h = absurd (omega arith)
take-non_empty (suc k) [] le h = absurd cc
take-non_empty (suc k) (c ∷ s) le h = refl

-- The rest of the loop, once a piece was received.
abbrev go_on : ℕ → ℕ → Bytes → Bytes → Socket → Result Lost Bytes × Socket
go_on fuel l buf c = elim (is_empty c) [
  | true ↦ fail lost
  | false ↦ recv_loop fuel (suc l - length c) (buf ++ c)
]

recv_loop-step :
    (fuel l : ℕ) (buf : Bytes) (s : Socket)
    → is_empty s.stream.incoming ≡ false
    → recv_loop (suc fuel) (suc l) buf s
      ≡ recv_loop fuel (suc l - length (piece s (suc l))) (buf ++ piece s (suc l)) (after s (suc l))
unfolding recv_loop
recv_loop-step fuel l buf s h =
    let full : is_empty (piece s (suc l)) ≡ false =
      take-non_empty (chunk s (suc l)) s.stream.incoming (omega arith) h in
    ap (λ o. continue (caught_in o) (go_on fuel l buf)) (recv-there (suc l) s h)
    ∙ rw (full, go_on) refl

-- At the end of the stream nothing is received.
recv-at_end :
    (n : ℕ) (s : Socket) → is_empty s.stream.incoming ≡ true → recv n s ≡ (at_end s.end_error, s)
unfolding recv
recv-at_end n s h = rw (h, recv) refl

nothing_more :
    (fuel l : ℕ) (buf : Bytes) (o : Option IoError) (s : Socket)
    → (continue (caught_in (at_end o, s)) (go_on fuel l buf)).0 ≡ err lost
nothing_more fuel l buf none s = refl
nothing_more fuel l buf (some e) s = refl

recv_loop-at_end :
    (fuel l : ℕ) (buf : Bytes) (s : Socket)
    → is_empty s.stream.incoming ≡ true
    → (recv_loop (suc fuel) (suc l) buf s).0 ≡ err lost
unfolding recv_loop
recv_loop-at_end fuel l buf s h =
    ap (λ o. (continue (caught_in o) (go_on fuel l buf)).0) (recv-at_end (suc l) s h)
    ∙ nothing_more fuel l buf s.end_error s

take-nil : (n : ℕ) → take n empty ≡ empty
take-nil zero = refl
take-nil (suc n) = refl

take-take_drop : (m n : ℕ) (s : Bytes) → take (m + n) s ≡ take m s ++ take n (drop m s)
take-take_drop zero n s = ap (λ k. take k s) (omega arith)
take-take_drop (suc m) n [] = take-nil (suc m + n) ∙ sym (take-nil n)
take-take_drop (suc m) n (c ∷ s) =
    let e : suc m + n ≡ suc (m + n) = omega arith in rw e (ap (λ r. c ∷ r) (take-take_drop m n s))

empty-length : (s : Bytes) → is_empty s ≡ true → length s ≡ 0
empty-length [] h = refl
empty-length (c ∷ s) h = absurd cc

filled-length : (s : Bytes) → is_empty s ≡ false → 1 ≤ length s
filled-length [] h = absurd cc
filled-length (c ∷ s) h = omega arith

-- What is left of a stream after `n` bytes, and the bytes.
abbrev pub Gets : ℕ → Bytes → Stream → Result Lost Bytes × Socket → Type 0
Gets n buf st o = (o.0 ≡ ok (buf ++ take n st.incoming)) × (o.1.stream ≡ rest_of st n)

-- The loop goes on from a piece that it got in full.
Gets-piece :
    (k left l : ℕ) (buf : Bytes) (st : Stream) (o o' : Result Lost Bytes × Socket)
    → o ≡ o'
    → k + left ≡ suc l
    → Gets left (buf ++ take k st.incoming) (rest_of st k) o'
    → Gets (suc l) buf st o
Gets-piece k left l buf st o o' same all (got, after_it) = (
  ap (λ (x : Result Lost Bytes × Socket). x.0) same
      ∙ got
      ∙ ap ok (
          append_assoc buf (take k st.incoming) (take left (drop k st.incoming))
          ∙ ap (λ r. buf ++ r)
              (sym (take-take_drop k left st.incoming) ∙ ap (λ n. take n st.incoming) all)),
  ap (λ (x : Result Lost Bytes × Socket). x.1.stream) same
      ∙ after_it
      ∙ ap (λ r. record st { incoming = r })
          (sym (drop-drop k left st.incoming) ∙ ap (λ n. drop n st.incoming) all),
)

recv_loop-Gets :
    (fuel left : ℕ) (buf : Bytes) (s : Socket)
    → left ≤ fuel
    → left ≤ length s.stream.incoming
    → Gets left buf s.stream (recv_loop fuel left buf s)
unfolding recv_loop
recv_loop-Gets fuel zero buf s enough there = (ap ok (sym (append-nil buf)), refl)
recv_loop-Gets zero (suc l) buf s enough there = absurd (omega arith)
recv_loop-Gets (suc fuel) (suc l) buf s enough there =
    elim (Bool-cases (is_empty s.stream.incoming)) [
      | inl gone ↦ let none_left = empty-length s.stream.incoming gone in absurd (omega arith)
      | inr more ↦
          let k = chunk s (suc l) in
          let got = length-take k s.stream.incoming in
          let rest = length-drop k s.stream.incoming in
          let left = suc l - length (piece s (suc l)) in
          let some_there = filled-length s.stream.incoming more in
          Gets-piece k left l buf s.stream _ _ (recv_loop-step fuel l buf s more)
            (omega (arith, got))
            (recv_loop-Gets fuel left (buf ++ piece s (suc l)) (after s (suc l))
              (omega (arith, got, some_there)) (omega (arith, got, rest, some_there)))
    ]

recv_loop-short :
    (fuel left : ℕ) (buf : Bytes) (s : Socket)
    → left ≤ fuel
    → length s.stream.incoming < left
    → (recv_loop fuel left buf s).0 ≡ err lost
recv_loop-short fuel zero buf s enough short = absurd (omega arith)
recv_loop-short zero (suc l) buf s enough short = absurd (omega arith)
recv_loop-short (suc fuel) (suc l) buf s enough short =
    elim (Bool-cases (is_empty s.stream.incoming)) [
      | inl gone ↦ recv_loop-at_end fuel l buf s gone
      | inr more ↦
          let k = chunk s (suc l) in
          let got = length-take k s.stream.incoming in
          let rest = length-drop k s.stream.incoming in
          let left = suc l - length (piece s (suc l)) in
          let some_there = filled-length s.stream.incoming more in
          ap (λ (x : Result Lost Bytes × Socket). x.0) (recv_loop-step fuel l buf s more)
          ∙ recv_loop-short fuel left (buf ++ piece s (suc l)) (after s (suc l))
              (omega (arith, got, some_there)) (omega (arith, got, rest, some_there))
    ]

-- A stream with enough bytes gives just these, in whatever pieces they come; from a shorter one
-- nothing is returned.
pub recv_exact-Gets :
    (n : ℕ) (s : Socket) → n ≤ length s.stream.incoming → Gets n [] s.stream (recv_exact n s)
unfolding recv_exact
recv_exact-Gets n s there = recv_loop-Gets n n [] s (omega arith) there

pub recv_exact-short :
    (n : ℕ) (s : Socket) → length s.stream.incoming < n → (recv_exact n s).0 ≡ err lost
unfolding recv_exact
recv_exact-short n s short = recv_loop-short n n [] s (omega arith) short
