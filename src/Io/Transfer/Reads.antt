-- ===== src/Io/Transfer/Reads.antt =====
-- What `async_read` in include/iocoro/io/read.hpp reads.
use iocoro.Base.{
  ℕ, zero, suc, ◌+◌, ◌-◌, ◌≤◌, ◌<◌, ◌≡◌, ◌⊎◌, ◌==◌, refl, sym, ap, ◌∙◌, Option, some, List, [], ◌∷◌,
  ◌++◌, arith, length, length-append, append_assoc, Bool-cases, inl, inr,
}
use iocoro.Io.{eof, Result, ok, unexpected, Answer, bytes, fails}
use iocoro.Io.ReadUntil.Occurrence.{InOrder}
use iocoro.Io.Transfer.{read_turn, read_loop, async_read}

module _ {S : Type 0} (read_some : S → ℕ → S × Answer) (stream : InOrder S read_some)
    (fits : (s t : S) (k : ℕ) (cs : List ℕ) → read_some s k ≡ (t, bytes cs) → length cs ≤ k) where
  -- What `async_read` has done when it ends with `o`: it has filled the buffer, and returns its
  -- size, or it returns `eof`, and nothing is left to come. Either way what it has put in the buffer
  -- and what is still to come are together the bytes `all`.
  abbrev pub Ends : Option (Result × S × List ℕ) → ℕ → List ℕ → Type 0
  Ends o wanted all =
      (r : Result) × (t : S) × (data_read : List ℕ) × (o ≡ some (r, t, data_read))
      × (data_read ++ stream.coming t ≡ all)
      × (((r ≡ ok wanted) × (length data_read ≡ wanted))
          ⊎ ((r ≡ unexpected eof) × (length data_read < wanted) × (stream.coming t ≡ [])))

  read_turn-Ends :
      (next : S → List ℕ → Option (Result × S × List ℕ)) (s : S) (k : ℕ) (a : S × Answer)
      (filled : List ℕ) (wanted : ℕ)
      → read_some s k ≡ a
      → 0 < k
      → length filled + k ≡ wanted
      → ((t : S) (more : List ℕ)
          → length filled < length more
          → length more ≤ wanted
          → Ends (next t more) wanted (more ++ stream.coming t))
      → Ends (read_turn next a filled) wanted (filled ++ stream.coming s)
  read_turn-Ends next s k (t, fails e) filled wanted r b w h = absurd (stream.reliable s t k e r)
  read_turn-Ends next s k (t, bytes []) filled wanted r b w h = (
    unexpected eof,
    t,
    filled,
    refl,
    ap (λ l. filled ++ l) (sym (stream.in_order s t k [] r)),
    inr (refl, omega (arith, w, b), sym (stream.in_order s t k [] r) ∙ stream.ends s t k b r),
  )
  read_turn-Ends next s k (t, bytes (c ∷ cs)) filled wanted r b w h =
      let step = fits s t k (c ∷ cs) r in
      let (q, u, l, e, d, z) =
        h t (filled ++ c ∷ cs) (omega (arith, length-append filled (c ∷ cs)))
          (omega (arith, length-append filled (c ∷ cs), step, w)) in
      (
        q,
        u,
        l,
        e,
        d
            ∙ append_assoc filled (c ∷ cs) (stream.coming t)
            ∙ ap (λ m. filled ++ m) (sym (stream.in_order s t k (c ∷ cs) r)),
        z,
      )

  read_loop-Ends :
      (fuel : ℕ) (s : S) (wanted : ℕ) (filled : List ℕ)
      → wanted - length filled < fuel
      → length filled ≤ wanted
      → Ends (read_loop read_some fuel s wanted filled) wanted (filled ++ stream.coming s)
  unfolding read_loop
  read_loop-Ends zero s wanted filled f b = absurd (omega (arith, f))
  read_loop-Ends (suc fuel) s wanted filled f b = elim (Bool-cases (wanted - length filled == 0)) [
    | inl e ↦ rw (e, read_loop) (ok wanted, s, filled, refl, refl, inl (refl, ground (arith, e, b)))
    | inr e ↦
        rw (e, read_loop)
          (read_turn-Ends (λ t more. read_loop read_some fuel t wanted more) s
            (wanted - length filled) (read_some s (wanted - length filled)) filled wanted refl
            (ground (arith, e)) (omega (arith, b))
            (λ t more longer small.
              read_loop-Ends fuel t wanted more (omega (arith, longer, small, f)) small))
  ]

  -- On a stream that delivers its bytes in order, never more than asked and without failing,
  -- `async_read` ends: either it fills the buffer and returns its size, or the stream is at its end
  -- before and it returns `eof`. In both cases no byte is lost, doubled or out of order, however the
  -- reads cut them, and at most one read is made for each byte of the buffer and one at the end.
  pub async_read-Ends :
      (fuel : ℕ) (s : S) (wanted : ℕ)
      → wanted < fuel
      → Ends (async_read read_some fuel s wanted) wanted (stream.coming s)
  unfolding async_read
  async_read-Ends fuel s wanted f = read_loop-Ends fuel s wanted [] (omega (arith, f)) (omega arith)
