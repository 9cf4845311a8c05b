-- ===== src/Aead/Open/Decryption.antt =====
-- What `ChaCha20Poly1305Open` of src/aead.cpp makes of OpenSSL's answers.
use ph_k_battle_server.Base.{
  ℕ, zero, suc, ◌+◌, ◌≡◌, ◌≢◌, refl, sym, ap, ◌∙◌, subst, ◌⊎◌, inl, inr, false, [], ◌∷◌, ◌++◌, some,
  arith, length, take, drop, take-append, append-nil, is_empty, Bytes,
}
use ph_k_battle_server.Aead.Open.{
  Evp, zero_bytes, write_at, resize, feed_aad, feed_ciphertext, decrypt, chacha20_poly1305_open,
}

-- A run of the calls that all succeed, with the numbers that OpenSSL documents: additional data and
-- ciphertext are reported with their lengths, and the last call writes nothing.
pub record Succeeds (e : Evp) (key nonce aad ciphertext auth_tag out : Bytes) : Type 0 where
  pub c0 : e.Context
  pub c1 : e.Context
  pub c2 : e.Context
  pub c3 : e.Context
  pub c4 : e.Context
  pub c5 : e.Context
  pub c6 : e.Context
  pub created : e.new_context ≡ some c0
  pub with_cipher : e.init_cipher c0 ≡ some c1
  pub with_length : e.set_iv_length c1 (length nonce) ≡ some c2
  pub with_key : e.init_key c2 key nonce ≡ some c3
  pub with_aad : e.update_aad c3 aad ≡ some (c4, length aad)
  pub with_text :
      ((ciphertext ≡ []) × (c5 ≡ c4) × (out ≡ zero_bytes (length aad)))
      ⊎ ((ciphertext ≢ [])
          × (e.update c4 ciphertext ≡ some (c5, out))
          × (length out ≡ length ciphertext))
  pub with_tag : e.set_tag c5 auth_tag ≡ some c6
  pub passed : e.final c6 ≡ some []

length-zero_bytes : (n : ℕ) → length (zero_bytes n) ≡ n
unfolding zero_bytes
length-zero_bytes zero = refl
length-zero_bytes (suc n) = omega (arith, length-zero_bytes n)

take-all : (xs : Bytes) → take (length xs) xs ≡ xs
take-all [] = refl
take-all (x ∷ xs) = ap (λ ys. x ∷ ys) (take-all xs)

drop-all : (n : ℕ) (xs : Bytes) → length xs ≡ n → drop n xs ≡ []
drop-all zero [] h = refl
drop-all zero (x ∷ xs) h = absurd (omega arith)
drop-all (suc n) [] h = refl
drop-all (suc n) (x ∷ xs) h = drop-all n xs (omega arith)

take-nil : (n : ℕ) → take {A = ℕ} n [] ≡ []
take-nil zero = refl
take-nil (suc n) = refl

drop-nil : (n : ℕ) → drop {A = ℕ} n [] ≡ []
drop-nil zero = refl
drop-nil (suc n) = refl

not_empty : (text : Bytes) → text ≢ [] → is_empty text ≡ false
not_empty [] h = absurd (h refl)
not_empty (b ∷ text) h = refl

-- Output as long as the buffer fills it.
write_at-front : (out : Bytes) (n : ℕ) → length out ≡ n → write_at 0 out (zero_bytes n) ≡ out
unfolding write_at
write_at-front out n h =
    ap (λ rest. out ++ rest)
      (drop-all (0 + length out) (zero_bytes n) (omega (arith, h, length-zero_bytes n)))
    ∙ append-nil out

written_nothing : (out : Bytes) → write_at (length out) [] out ≡ out
unfolding write_at
written_nothing out =
    ap (λ front. front ++ drop (length out + 0) out) (take-all out)
    ∙ ap (λ rest. out ++ rest) (drop-all (length out + 0) out (omega arith))
    ∙ append-nil out

resize_self : (n : ℕ) (out : Bytes) → length out ≡ n → resize (n + 0) out ≡ out
unfolding resize
resize_self n out h =
    ap (λ k. take k (out ++ zero_bytes (n + 0))) (omega (arith, h))
    ∙ take-append out (zero_bytes (n + 0))

finish-whole : (out : Bytes) → resize (length out + 0) (write_at (length out) [] out) ≡ out
finish-whole out =
    ap (resize (length out + 0)) (written_nothing out) ∙ resize_self (length out) out refl

finish-empty : (n : ℕ) → resize (n + 0) (write_at n [] []) ≡ zero_bytes n
unfolding resize write_at
finish-empty n =
    ap (λ front. take (n + 0) ((front ++ drop (n + 0) []) ++ zero_bytes (n + 0))) (take-nil n)
    ∙ ap (λ rest. take (n + 0) (rest ++ zero_bytes (n + 0))) (drop-nil (n + 0))
    ∙ ap (λ k. take k (zero_bytes k)) (omega arith)
    ∙ ap (λ k. take k (zero_bytes n)) (sym (length-zero_bytes n))
    ∙ take-all (zero_bytes n)

module _ (e : Evp) where
  fed_aad :
      (ctx next : e.Context) (aad : Bytes) (n : ℕ)
      → aad ≢ []
      → e.update_aad ctx aad ≡ some (next, n)
      → feed_aad e ctx aad ≡ some (next, n)
  unfolding feed_aad
  fed_aad ctx next aad n some_aad h = ground (arith, h, not_empty aad some_aad)

  fed_ciphertext :
      (ctx next : e.Context) (n : ℕ) (ciphertext out : Bytes)
      → ciphertext ≢ []
      → e.update ctx ciphertext ≡ some (next, out)
      → length out ≡ length ciphertext
      → feed_ciphertext e ctx n ciphertext ≡ some (next, out, length out)
  unfolding feed_ciphertext
  fed_ciphertext ctx next n ciphertext out text h l =
      ground (arith, h, not_empty ciphertext text, write_at-front out (length ciphertext) l)

  fed_nothing :
      (ctx next : e.Context) (n : ℕ) (ciphertext : Bytes)
      → ciphertext ≡ []
      → next ≡ ctx
      → feed_ciphertext e ctx n ciphertext ≡ some (next, [], n)
  unfolding feed_ciphertext zero_bytes
  fed_nothing ctx next n ciphertext empty same =
      subst (λ t. feed_ciphertext e ctx n t ≡ some (next, [], n)) (sym empty)
        (ap (λ c. some (c, [], n)) (sym same))

  -- The end of a run, from the buffer and the count.
  ends :
      (key nonce aad ciphertext auth_tag out : Bytes)
      → (s : Succeeds e key nonce aad ciphertext auth_tag out) → aad ≢ []
      → (buffer : Bytes) (n : ℕ)
      → feed_ciphertext e s.c4 (length aad) ciphertext ≡ some (s.c5, buffer, n)
      → decrypt e key nonce aad ciphertext auth_tag ≡ some (resize (n + 0) (write_at n [] buffer))
  unfolding decrypt
  ends key nonce aad ciphertext auth_tag out s some_aad buffer n fed = simp (
    s.created,
    s.with_cipher,
    s.with_length,
    s.with_key,
    fed_aad s.c3 s.c4 aad (length aad) some_aad s.with_aad,
    fed,
    s.with_tag,
    s.passed,
  )

  decrypt-Succeeds :
      (key nonce aad ciphertext auth_tag out : Bytes)
      → Succeeds e key nonce aad ciphertext auth_tag out
      → aad ≢ []
      → decrypt e key nonce aad ciphertext auth_tag ≡ some out
  decrypt-Succeeds key nonce aad ciphertext auth_tag out s some_aad = elim s.with_text [
    | inl (empty, same, zeros) ↦
        ends key nonce aad ciphertext auth_tag out s some_aad [] (length aad)
          (fed_nothing s.c4 s.c5 (length aad) ciphertext empty same)
        ∙ ap some (finish-empty (length aad) ∙ sym zeros)
    | inr (text, decrypted, l) ↦
        ends key nonce aad ciphertext auth_tag out s some_aad out (length out)
          (fed_ciphertext s.c4 s.c5 (length aad) ciphertext out text decrypted l)
        ∙ ap some (finish-whole out)
  ]

  -- With a key of 32 bytes, a nonce of 12, a tag of 16 and additional data, and where OpenSSL's calls
  -- succeed with the lengths that it documents, the function gives what the cipher wrote for a
  -- ciphertext that is not empty; for an empty one it gives zeros, as many as the additional data
  -- has bytes.
  pub chacha20_poly1305_open-Succeeds :
      (key nonce aad ciphertext auth_tag out : Bytes)
      → length key ≡ 32
      → length nonce ≡ 12
      → length auth_tag ≡ 16
      → aad ≢ []
      → Succeeds e key nonce aad ciphertext auth_tag out
      → chacha20_poly1305_open e key nonce aad ciphertext auth_tag ≡ out
  unfolding chacha20_poly1305_open
  chacha20_poly1305_open-Succeeds key nonce aad ciphertext auth_tag out k n t some_aad s =
      ground (arith, k, n, t, decrypt-Succeeds key nonce aad ciphertext auth_tag out s some_aad)
