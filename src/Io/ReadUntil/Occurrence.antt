-- ===== src/Io/ReadUntil/Occurrence.antt =====
-- What `async_read_until` in include/iocoro/io/read_until.hpp returns on a stream that delivers its
-- bytes in order, in pieces of any size.
use iocoro.Base.{
  ℕ, zero, suc, ◌+◌, ◌-◌, ◌≤◌, ◌<◌, ◌≡◌, refl, sym, ap, ◌∙◌, Option, none, some, List, [], ◌∷◌,
  ◌++◌, arith, ltb, length, length-append, append_assoc, append_nil, Bool-cases, inl, inr,
}
use iocoro.Io.{Result, ok, Answer, bytes, fails}
use iocoro.Io.Search.{search, search-append, search-inside}
use iocoro.Io.ReadUntil.{async_read_until}
use iocoro.Io.ReadUntil.Incremental.{
  plain_found, plain_turn, plain_loop, plain_read_until, async_read_until-plain,
}

-- What the caller relies on: there are bytes to come; each read takes some of them, in order, and
-- none only if there are none; and no read fails.
pub record InOrder (S : Type 0) (read_some : S → ℕ → S × Answer) : Type 0 where
  pub coming : S → List ℕ
  pub in_order :
      (s t : S) (k : ℕ) (cs : List ℕ) → read_some s k ≡ (t, bytes cs) → coming s ≡ cs ++ coming t
  pub ends : (s t : S) (k : ℕ) → 0 < k → read_some s k ≡ (t, bytes []) → coming s ≡ []
  pub reliable : (s t : S) (k e : ℕ) → read_some s k ≡ (t, fails e) → ⊥

module _ {S : Type 0} (read_some : S → ℕ → S × Answer) (stream : InOrder S read_some) where
  found-end :
      (next : S → List ℕ → Option Result) (t : S) (filled rest delim : List ℕ) (p : ℕ)
      (o : Option ℕ)
      → search filled delim ≡ o
      → search (filled ++ rest) delim ≡ some p
      → (search filled delim ≡ none → next t filled ≡ some (ok (p + length delim)))
      → plain_found next t filled delim o ≡ some (ok (p + length delim))
  found-end next t filled rest delim p none e h f = f e
  found-end next t filled rest delim p (some q) e h f =
      ground (arith, search-append filled rest delim q e)

  turn-end :
      (next : S → List ℕ → Option Result) (s : S) (k : ℕ) (a : S × Answer) (buf delim : List ℕ)
      (p : ℕ)
      → read_some s k ≡ a
      → 0 < k
      → search buf delim ≡ none
      → search (buf ++ stream.coming s) delim ≡ some p
      → ((t : S) (filled : List ℕ)
          → length buf < length filled
          → search filled delim ≡ none
          → search (filled ++ stream.coming t) delim ≡ some p
          → next t filled ≡ some (ok (p + length delim)))
      → plain_turn next a buf delim ≡ some (ok (p + length delim))
  turn-end next s k (t, fails e) buf delim p r b n h f = absurd (stream.reliable s t k e r)
  turn-end next s k (t, bytes []) buf delim p r b n h f =
      let none_left = stream.ends s t k b r in
      let same =
        ap (λ l. search (buf ++ l) delim) none_left ∙ ap (λ l. search l delim) (append_nil buf) in
      cc
  turn-end next s k (t, bytes (c ∷ cs)) buf delim p r b n h f =
      let split =
        ap (λ l. buf ++ l) (stream.in_order s t k (c ∷ cs) r)
        ∙ sym (append_assoc buf (c ∷ cs) (stream.coming t)) in
      let whole = ap (λ l. search l delim) (sym split) ∙ h in
      found-end next t (buf ++ c ∷ cs) (stream.coming t) delim p (search (buf ++ c ∷ cs) delim) refl
        whole (λ e. f t (buf ++ c ∷ cs) (omega (arith, length-append buf (c ∷ cs))) e whole)

  loop-end :
      (fuel : ℕ) (s : S) (buf : List ℕ) (max_size : ℕ) (delim : List ℕ) (p : ℕ)
      → max_size - length buf < fuel
      → 0 < length delim
      → p + length delim ≤ max_size
      → search buf delim ≡ none
      → search (buf ++ stream.coming s) delim ≡ some p
      → plain_loop read_some fuel s buf max_size delim ≡ some (ok (p + length delim))
  unfolding plain_loop
  loop-end zero s buf max_size delim p f d m n h = absurd (omega (arith, f))
  loop-end (suc fuel) s buf max_size delim p f d m n h =
      elim (Bool-cases (ltb (length buf) max_size)) [
        | inl e ↦
            rw (e, plain_loop)
              (turn-end (λ t filled. plain_loop read_some fuel t filled max_size delim) s
                (max_size - length buf) (read_some s (max_size - length buf)) buf delim p refl
                (ground (arith, e)) n h
                (λ t filled longer k w.
                  loop-end fuel t filled max_size delim p (ground (arith, e, f, longer)) d m k w))
        | inr e ↦
            let inside = search-inside buf (stream.coming s) delim p d h (ground (arith, e, m)) in
            cc
      ]

  -- Where the stream delivers its bytes in order and without failing, and the delimiter occurs in the
  -- initial data followed by the bytes to come, with its first occurrence ending inside the buffer,
  -- `async_read_until` returns the end of that occurrence, however the reads cut the bytes. More turns
  -- than the free space of the buffer are never needed.
  pub async_read_until-end :
      (fuel : ℕ) (s : S) (buf : List ℕ) (max_size d : ℕ) (ds : List ℕ) (p : ℕ)
      → max_size - length buf < fuel
      → length buf ≤ max_size
      → p + suc (length ds) ≤ max_size
      → search (buf ++ stream.coming s) (d ∷ ds) ≡ some p
      → async_read_until read_some fuel s buf max_size (d ∷ ds) ≡ some (ok (p + suc (length ds)))
  unfolding plain_read_until
  async_read_until-end fuel s buf max_size d ds p f b m h =
      async_read_until-plain read_some fuel s buf max_size (d ∷ ds)
      ∙ elim (Bool-cases (ltb max_size (length buf))) [
        | inl e ↦ absurd (ground (arith, e, b))
        | inr e ↦ rw (e) (
            found-end (λ t filled. plain_loop read_some fuel t filled max_size (d ∷ ds)) s buf
              (stream.coming s) (d ∷ ds) p (search buf (d ∷ ds)) refl h
              (λ n. loop-end fuel s buf max_size (d ∷ ds) p f (omega arith) m n h))
      ]
