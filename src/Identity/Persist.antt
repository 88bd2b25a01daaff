-- ===== src/Identity/Persist.antt =====
-- The persistent form of a device identity in src/contract.rs, and back.
use camera_rs.Base.{
  ℕ, ◌+◌, ◌*◌, ◌/◌, ◌%◌, ◌≤◌, ◌<◌, ◌≡◌, ◌⊎◌, refl, sym, ap, ap₂, subst, ◌∙◌, Bool, true, false, not,
  ◌||◌, List, [], ◌∷◌, ◌++◌, some, length, any, all, All, ltb, ◌==◌, ==_iff, Bool-cases, inl, inr,
  arith,
}
use camera_rs.Error.{CameraResult, ok, err}
use camera_rs.Identity.{
  slash, bar, bytes_eq, builtins, is_name_byte, is_valid_part, custom, split_once, backend_from_str,
  DeviceId, contains, new_device_id, hex_digit, encode, to_persistent_string, is_hex_digit, digit,
  decode, parse,
}

split_once-append :
    (c : ℕ) (xs ys : List ℕ) → contains c xs ≡ false → split_once c (xs ++ (c ∷ ys)) ≡ some (xs, ys)
unfolding split_once
split_once-append c [] ys e = rw ((==_iff c c).1 refl) refl
split_once-append c (x ∷ xs) ys e =
    let parts : ((x == c) ≡ false) × (contains c xs ≡ false) = ground (arith, e) in
    rw (parts.0, split_once-append c xs ys parts.1) refl

names-contain :
    (c : ℕ) (xs : List ℕ)
    → is_name_byte c ≡ false
    → all is_name_byte xs ≡ true
    → contains c xs ≡ false
names-contain c [] other named = refl
names-contain c (x ∷ xs) other named =
    let parts : (is_name_byte x ≡ true) × (all is_name_byte xs ≡ true) = ground (arith, named) in
    ground (arith, names-contain c xs other parts.1, apart x parts.0)
  where
    apart : (x : ℕ) → is_name_byte x ≡ true → (x == c) ≡ false
    apart x named_x = elim (Bool-cases (x == c)) [
      | inr different ↦ different
      | inl same ↦
          absurd (cc (other, subst (λ n. is_name_byte n ≡ true) ((==_iff x c).0 same) named_x))
    ]

bytes_eq-eq : (xs ys : List ℕ) → bytes_eq xs ys ≡ true → xs ≡ ys
bytes_eq-eq [] [] e = refl
bytes_eq-eq [] (y ∷ ys) e = absurd (cc e)
bytes_eq-eq (x ∷ xs) [] e = absurd (cc e)
bytes_eq-eq (x ∷ xs) (y ∷ ys) e =
    let parts : (x ≡ y) × (bytes_eq xs ys ≡ true) = ground (arith, e) in
    ap₂ (λ z zs. z ∷ zs) parts.0 (bytes_eq-eq xs ys parts.1)

-- What all names in a list have, a name of the list has.
any-All :
    (P : List ℕ → Type 0) (v : List ℕ) (bs : List (List ℕ))
    → any (bytes_eq v) bs ≡ true
    → All P bs
    → P v
any-All P v [] e a = absurd (cc e)
any-All P v (b ∷ bs) e a = elim (Bool-cases (bytes_eq v b)) [
  | inl same ↦ subst P (sym (bytes_eq-eq v b same)) a.0
  | inr other ↦ any-All P v bs (rw other at e) a.1
]

contains-append :
    (c : ℕ) (xs ys : List ℕ)
    → contains c xs ≡ false
    → contains c ys ≡ false
    → contains c (xs ++ ys) ≡ false
contains-append c [] ys e f = f
contains-append c (x ∷ xs) ys e f =
    let parts : ((x == c) ≡ false) × (contains c xs ≡ false) = ground (arith, e) in
    rw (parts.0) (contains-append c xs ys parts.1 f)

-- Identifiers that the crate makes: a built-in backend's, or what `custom` returns.
abbrev pub IsMade : List ℕ → Type 0
IsMade b =
    (any (bytes_eq b) builtins ≡ true)
    ⊎ ((namespace : List ℕ) × (name : List ℕ) × (custom namespace name ≡ ok b))

custom-parts :
    (namespace name b : List ℕ)
    → custom namespace name ≡ ok b
    → (all is_name_byte namespace ≡ true)
      × (all is_name_byte name ≡ true)
      × (namespace ++ (slash ∷ name) ≡ b)
unfolding custom
custom-parts namespace name b e =
    elim (Bool-cases (not (is_valid_part namespace) || not (is_valid_part name))) [
      | inl bad ↦ absurd (cc (rw bad at e))
      | inr good ↦ (ground (arith, good), ground (arith, good), ap value_of (rw good at e))
    ]
  where
    value_of : CameraResult (List ℕ) → List ℕ
    value_of (ok v) = v
    value_of (err x) = b

-- An identifier that the crate makes has no bar, and its string names it again.
pub made-parses : (b : List ℕ) → IsMade b → (contains bar b ≡ false) × (backend_from_str b ≡ ok b)
unfolding backend_from_str
made-parses b (inl builtin) = (
  any-All (λ v. contains bar v ≡ false) b builtins builtin
      (refl, (refl, (refl, (refl, (refl, (refl, tt)))))),
  rw builtin refl,
)
made-parses b (inr (namespace, name, e)) =
    let (named, named', joined) = custom-parts namespace name b e in
    (
      subst (λ v. contains bar v ≡ false) joined
          (contains-append bar namespace (slash ∷ name) (names-contain bar namespace refl named)
            (names-contain bar name refl named')),
      elim (Bool-cases (any (bytes_eq b) builtins)) [
        | inl builtin ↦ rw builtin refl
        | inr other ↦ rw other (
            rw
              (subst (λ v. split_once slash v ≡ some (namespace, name)) joined
                (split_once-append slash namespace name (names-contain slash namespace refl named)))
              e)
      ],
    )

digit-hex_digit : (n : ℕ) → n < 16 → digit (hex_digit n) ≡ n
digit-hex_digit n h = ground (arith, h)

hex_digit-IsHex : (n : ℕ) → n < 16 → is_hex_digit (hex_digit n) ≡ true
hex_digit-IsHex n h = ground (arith, h)

encode-facts :
    (bs : List ℕ)
    → All (λ b. b < 256) bs
    → (decode (encode bs) ≡ bs)
      × (length (encode bs) ≡ length bs * 2)
      × (all is_hex_digit (encode bs) ≡ true)
unfolding encode decode
encode-facts [] small = (refl, omega arith, refl)
encode-facts (b ∷ bs) small =
    let (decoded, long, hex) = encode-facts bs small.1 in
    let high : b / 16 < 16 = omega (arith, small.0) in
    let low : b % 16 < 16 = omega arith in
    (
      ap₂ (λ x xs. x ∷ xs)
          (ap₂ (λ x y. x * 16 + y) (digit-hex_digit (b / 16) high) (digit-hex_digit (b % 16) low)
            ∙ omega arith)
          decoded,
      omega (arith, long),
      rw (hex_digit-IsHex (b / 16) high, hex_digit-IsHex (b % 16) low, hex) refl,
    )

new_device_id-parts :
    (backend native : List ℕ) (d : DeviceId)
    → new_device_id backend native ≡ ok d
    → ((length native == 0 || ltb 4096 (length native) || contains 0 native) ≡ false)
      × (d.backend ≡ backend)
      × (d.native ≡ native)
unfolding new_device_id
new_device_id-parts backend native d e =
    elim (Bool-cases (length native == 0 || ltb 4096 (length native) || contains 0 native)) [
      | inl bad ↦ absurd (cc (rw bad at e))
      | inr good ↦ (
        good,
        sym (ap (λ r. (device_of r).backend) (rw good at e)),
        sym (ap (λ r. (device_of r).native) (rw good at e)),
      )
    ]
  where
    device_of : CameraResult DeviceId → DeviceId
    device_of (ok x) = x
    device_of (err x) = d

-- Twice as many digits as the bytes of an accepted identifier pass the checks of `parse`.
within : (n m : ℕ) → m ≡ n * 2 → n ≤ 4096 → (ltb 8192 m || not (m % 2 == 0) || false) ≡ false
within n m e h = ground (arith, e, h)

short :
    (native : List ℕ)
    → (length native == 0 || ltb 4096 (length native) || contains 0 native) ≡ false
    → length native ≤ 4096
short native e = elim (Bool-cases (ltb 4096 (length native))) [
  | inl long ↦ absurd (ground (arith, e, long))
  | inr fits ↦ ground (arith, fits)
]

-- A device identity that `DeviceId::new` makes, for a backend of the crate or one from `custom` and a native
-- identifier of bytes in UTF-8, is read back from its persistent string by `DeviceId::parse`.
pub parse-to_persistent_string :
    (is_utf8 : List ℕ → Bool) (backend native : List ℕ) (d : DeviceId)
    → IsMade backend
    → All (λ b. b < 256) native
    → is_utf8 native ≡ true
    → new_device_id backend native ≡ ok d
    → parse is_utf8 (to_persistent_string d) ≡ ok d
unfolding parse to_persistent_string
parse-to_persistent_string is_utf8 backend native d made small utf8 e =
    let (accepted, is_backend, is_native) = new_device_id-parts backend native d e in
    let (no_bar, parses) = made-parses backend made in
    let (decoded, long, hex) = encode-facts native small in
    let fits : (ltb 8192 (length (encode native)) || not (length (encode native) % 2 == 0) || false)
        ≡ false =
      within (length native) (length (encode native)) long (short native accepted) in
    rw (is_backend, is_native)
      (rw (split_once-append bar backend (encode native) no_bar, parse)
        (rw (decoded, hex, utf8, parses) (rw fits (rw accepted refl))))
