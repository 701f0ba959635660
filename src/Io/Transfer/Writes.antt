-- ===== src/Io/Transfer/Writes.antt =====
-- What `async_write` in include/iocoro/io/write.hpp sends.
use iocoro.Base.{
  ℕ, zero, suc, ◌≤◌, ◌<◌, ◌≡◌, ◌==◌, refl, sym, ap, ◌∙◌, Option, some, List, [], ◌∷◌, ◌++◌, arith,
  length, take, drop, length-drop, take-append-drop, append_assoc, append_nil, Bool-cases, inl, inr,
}
use iocoro.Io.{Result, ok}
use iocoro.Io.Transfer.{Taken, takes, write_fails, write_turn, write_loop, async_write}

-- What the caller relies on: the stream has sent some bytes; each write of a buffer that is not
-- empty sends a part of it from its start that is not empty; and no write fails.
pub record Sends (S : Type 0) (write_some : S → List ℕ → S × Taken) : Type 0 where
  pub sent : S → List ℕ
  pub sends :
      (s t : S) (buf : List ℕ) (n : ℕ)
      → write_some s buf ≡ (t, takes n)
      → sent t ≡ sent s ++ take n buf
  pub some_bytes :
      (s t : S) (buf : List ℕ) (n : ℕ)
      → 0 < length buf
      → write_some s buf ≡ (t, takes n)
      → (0 < n) × (n ≤ length buf)
  pub no_failure : (s t : S) (buf : List ℕ) (e : ℕ) → write_some s buf ≡ (t, write_fails e) → ⊥

module _ {S : Type 0} (write_some : S → List ℕ → S × Taken) (stream : Sends S write_some) where
  -- The operation ends with the count `wanted`, after the bytes `all`.
  abbrev Ends : Option (Result × S) → ℕ → List ℕ → Type 0
  Ends o wanted all = (t : S) × (o ≡ some (ok wanted, t)) × (stream.sent t ≡ all)

  write_turn-Ends :
      (next : S → List ℕ → Option (Result × S)) (s : S) (a : S × Taken) (buf : List ℕ) (wanted : ℕ)
      → write_some s buf ≡ a
      → 0 < length buf
      → ((t : S) (rest : List ℕ)
          → length rest < length buf
          → Ends (next t rest) wanted (stream.sent t ++ rest))
      → Ends (write_turn next a buf) wanted (stream.sent s ++ buf)
  write_turn-Ends next s (t, write_fails e) buf wanted r b h =
      absurd (stream.no_failure s t buf e r)
  write_turn-Ends next s (t, takes zero) buf wanted r b h =
      absurd (omega (arith, stream.some_bytes s t buf 0 b r))
  write_turn-Ends next s (t, takes (suc n)) buf wanted r b h =
      let bound = stream.some_bytes s t buf (suc n) b r in
      let (u, e, d) = h t (drop (suc n) buf) (omega (arith, length-drop (suc n) buf, bound)) in
      (
        u,
        e,
        d
            ∙ ap (λ l. l ++ drop (suc n) buf) (stream.sends s t buf (suc n) r)
            ∙ append_assoc (stream.sent s) (take (suc n) buf) (drop (suc n) buf)
            ∙ ap (λ l. stream.sent s ++ l) (take-append-drop (suc n) buf),
      )

  length-nil : (buf : List ℕ) → length buf ≡ 0 → buf ≡ []
  length-nil [] e = refl
  length-nil (x ∷ xs) e = absurd (omega (arith, e))

  write_loop-Ends :
      (fuel : ℕ) (s : S) (buf : List ℕ) (wanted : ℕ)
      → length buf < fuel
      → Ends (write_loop write_some fuel s buf wanted) wanted (stream.sent s ++ buf)
  unfolding write_loop
  write_loop-Ends zero s buf wanted f = absurd (omega (arith, f))
  write_loop-Ends (suc fuel) s buf wanted f = elim (Bool-cases (length buf == 0)) [
    | inl e ↦
        rw (e, write_loop)
          (
            s,
            refl,
            sym (append_nil (stream.sent s))
                ∙ ap (λ l. stream.sent s ++ l) (sym (length-nil buf (ground (arith, e)))),
          )
    | inr e ↦
        rw (e, write_loop)
          (write_turn-Ends (λ t rest. write_loop write_some fuel t rest wanted) s (write_some s buf)
            buf wanted refl (ground (arith, e))
            (λ t rest shorter. write_loop-Ends fuel t rest wanted (omega (arith, shorter, f))))
  ]

  -- On a stream that takes at least one byte of each write and does not fail, `async_write` sends
  -- the whole buffer, in order and each byte once, and returns its size, however the stream cuts it.
  -- It makes at most one write for each byte.
  pub async_write-ends :
      (fuel : ℕ) (s : S) (buf : List ℕ)
      → length buf < fuel
      → (t : S) × (async_write write_some fuel s buf ≡ some (ok (length buf), t))
        × (stream.sent t ≡ stream.sent s ++ buf)
  unfolding async_write
  async_write-ends fuel s buf f = write_loop-Ends fuel s buf (length buf) f
