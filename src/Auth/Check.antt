-- ===== src/Auth/Check.antt =====
-- What the comparison of auth_check tells of the two digests.
use native.Mathlib.Nat.{suc-add}
use netcosm.Auth.{
  matches, hex, hex_digit, auth_check, auth_hashlen, salt_len, UserData, hash_pass_hex,
}
use netcosm.Base.{
  ℕ, zero, suc, ◌+◌, ◌/◌, ◌%◌, ◌≤◌, ◌<◌, ◌≡◌, refl, ◌∙◌, Bool, true, false, ◌&&◌, none, some, [],
  ◌∷◌, ◌++◌, length, take, ap, get_or, ◌==◌, if◌then◌else◌, arith,
}
use netcosm.Text.Cruft.{remove_cruft}
use netcosm.Text.{Bytes}

matches-false : (n i : ℕ) (new old : Bytes) → matches n i new old false ≡ false
unfolding matches
matches-false zero i new old = refl
matches-false (suc n) i new old = ground (arith, matches-false n (i + 1) new old)

matches-shift :
    (n i x u : ℕ) (xs us : Bytes) (s : Bool)
    → matches n (suc i) (x ∷ xs) (u ∷ us) s ≡ matches n i xs us s
unfolding matches
matches-shift zero i x u xs us s = refl
matches-shift (suc n) i x u xs us s =
    rw suc-add
      (matches-shift n (i + 1) x u xs us (if get_or xs i 0 == get_or us i 0 then s else false))

-- The first `n` bytes are the same.
unfoldable pub same_bytes : ℕ → Bytes → Bytes → Bool
same_bytes zero xs ys = true
same_bytes (suc n) (a ∷ xs) (b ∷ ys) = a == b && same_bytes n xs ys
same_bytes (suc n) xs ys = false

abbrev pub AreBytes : Bytes → Type 0
AreBytes [] = Unit
AreBytes (b ∷ ys) = (b < 256) × AreBytes ys

hex_digit_high : (a b : ℕ) → a < 16 → b < 16 → (hex_digit a == hex_digit b) ≡ (a == b)
hex_digit_high a b h k = ground (arith, h, k)

hex_digits :
    (a b : ℕ)
    → a < 256
    → b < 256
    → ((hex_digit (a / 16) == hex_digit (b / 16)) && (hex_digit (a % 16) == hex_digit (b % 16)))
      ≡ (a == b)
hex_digits a b h k =
    rw
      (
        hex_digit_high (a / 16) (b / 16) (omega (arith, h)) (omega (arith, k)),
        hex_digit_high (a % 16) (b % 16) (omega arith) (omega arith),
      )
      (ground (arith, h, k))

abbrev doubled : ℕ → ℕ
doubled zero = zero
doubled (suc n) = suc (suc (doubled n))

-- Two characters of each string at a time.
matches-twice :
    (n x1 x0 y1 y0 : ℕ) (xs ys : Bytes)
    → matches (suc (suc n)) 0 (x1 ∷ x0 ∷ xs) (y1 ∷ y0 ∷ ys) true
      ≡ ((x1 == y1) && (x0 == y0) && matches n 0 xs ys true)
unfolding matches
matches-twice n x1 x0 y1 y0 xs ys =
    matches-shift n 1 x1 y1 (x0 ∷ xs) (y0 ∷ ys) _
    ∙ (matches-shift n 0 x0 y0 xs ys _ ∙ ground (arith, matches-false n 0 xs ys))

matches-hex :
    (n : ℕ) (xs ys : Bytes)
    → AreBytes xs
    → AreBytes ys
    → n ≤ length xs
    → n ≤ length ys
    → matches (doubled n) 0 (hex xs) (hex ys) true ≡ same_bytes n xs ys
unfolding matches hex same_bytes
matches-hex zero xs ys h k m l = refl
matches-hex (suc n) [] ys h k m l = absurd (omega (arith, m))
matches-hex (suc n) (x ∷ xs) [] h k m l = absurd (omega (arith, l))
matches-hex (suc n) (x ∷ xs) (y ∷ ys) h k m l =
    matches-twice (doubled n) _ _ _ _ (hex xs) (hex ys)
    ∙ ground (
      arith,
      hex_digits x y h.0 k.0,
      matches-hex n xs ys h.1 k.1 (omega (arith, m)) (omega (arith, l)),
    )

take-whole : (n : ℕ) (s : Bytes) → length s ≤ n → take n s ≡ s
take-whole zero [] h = refl
take-whole (suc n) [] h = refl
take-whole zero (b ∷ s) h = absurd (omega (arith, h))
take-whole (suc n) (b ∷ s) h = ap (λ s. b ∷ s) (take-whole n s (omega (arith, h)))

-- Where the salt has its 16 bytes, a password is accepted exactly when the first 32 of the 64 bytes of its salted digest are those of
-- the digest stored in hexadecimal; the other half is not looked at.
pub auth_check-same_bytes :
    (sha512 : Bytes → Bytes) (user : UserData) (digest pass : Bytes)
    → ((m : Bytes) → AreBytes (sha512 m) × (length (sha512 m) ≡ auth_hashlen))
    → length user.salt ≡ salt_len
    → AreBytes digest
    → length digest ≡ auth_hashlen
    → user.passhash ≡ hex digest
    → auth_check sha512 user pass
      ≡ (if same_bytes 32 (sha512 (user.salt ++ remove_cruft pass)) digest then some user else none)
unfolding auth_check hash_pass_hex
auth_check-same_bytes sha512 user digest pass sound salted bytes long stored =
    let whole : take salt_len user.salt ≡ user.salt =
      take-whole salt_len user.salt (omega (arith, salted)) in
    let new : Bytes = sha512 (user.salt ++ remove_cruft pass) in
    let (new_bytes, new_long) = sound (user.salt ++ remove_cruft pass) in
    rw
      (
        stored,
        whole,
        matches-hex 32 new digest new_bytes bytes (omega (arith, new_long)) (omega (arith, long)),
      )
      refl
