-- ===== src/RugGuard/Parsers/Fee.antt =====
-- The loop of `parse_token2022_transfer_fee_bps` of src/rug_guard.rs: its fuel, and what it finds
-- in a well-formed list of extensions.
use girasolbot.Prelude.{
  ℕ, zero, suc, ◌+◌, ◌-◌, ◌≤◌, ◌<◌, ◌≡◌, refl, sym, ap, ◌∙◌, arith, Bool, true, false, Option, none,
  some, List, [], ◌∷◌, ◌++◌, ltb, ◌==◌, if◌then◌else◌, Bytes, length, slice, slice_at, take-within,
  All, from_le_bytes, to_le_bytes, length-append, from_le_bytes-to_le_bytes, get_or, not, ◌||◌,
}
use mathlib.Core.List.{append_assoc}
use girasolbot.RugGuard.Parsers.{
  Scan, out_of_fuel, done, scan_extensions, visit, value_length, parse_token2022_transfer_fee_bps,
}

abbrev pub returned : Scan → Bool
returned out_of_fuel = false
returned (done r) = true

scan_extensions-returned :
    (fuel : ℕ) (bs : Bytes) (offset : ℕ)
    → length bs ≤ fuel + offset
    → returned (scan_extensions (suc fuel) bs offset) ≡ true
unfolding scan_extensions visit
scan_extensions-returned zero bs offset h = ground arith
scan_extensions-returned (suc fuel) bs offset h = ground (
  arith,
  scan_extensions-returned fuel bs
      (offset + 4 + from_le_bytes (slice bs (offset + 2) (offset + 4))),
)

returned-if :
    (test : Bool) (r s : Scan)
    → returned r ≡ true
    → returned s ≡ true
    → returned (if test then r else s) ≡ true
returned-if true r s hr hs = hr
returned-if false r s hr hs = hs

-- The loop never runs out of the fuel of one step per byte, whatever the bytes.
pub parse_token2022_transfer_fee_bps-returned :
    (bs : Bytes) → returned (parse_token2022_transfer_fee_bps bs) ≡ true
unfolding parse_token2022_transfer_fee_bps
parse_token2022_transfer_fee_bps-returned [] = refl
parse_token2022_transfer_fee_bps-returned (b ∷ bs) =
    returned-if (ltb (suc (length bs)) 166 || not (get_or (b ∷ bs) 165 0 == 1)) (done none) _ refl
      (scan_extensions-returned (length bs) (b ∷ bs) 166 (omega arith))

-- An extension: its type and its value.
abbrev pub Extension : Type 0
Extension = ℕ × Bytes

abbrev pub encode_one : ℕ → Bytes → Bytes → Bytes
encode_one t v rest = to_le_bytes 2 t ++ (to_le_bytes 2 (length v) ++ (v ++ rest))

abbrev pub encode : List Extension → Bytes
encode [] = []
encode ((t, v) ∷ es) = encode_one t v (encode es)

abbrev pub Fits : Extension → Type 0
Fits (t, v) = (t < 65536) × (length v < 65536)

-- The fee of the first fee extension, in the newer schedule.
abbrev pub first_fee : List Extension → Option ℕ
first_fee [] = none
first_fee ((t, v) ∷ es) =
    let rest = first_fee es in
    if t == 1
    then if ltb (length v) 108 then none else some (from_le_bytes (slice v 106 108))
    else rest

-- What the loop reads at an extension.
reads :
    (pre v rest : Bytes) (t : ℕ)
    → t < 65536
    → length v < 65536
    → let bs = pre ++ encode_one t v rest in
      let offset = length pre in
      (from_le_bytes (slice bs offset (offset + 2)) ≡ t)
      × (from_le_bytes (slice bs (offset + 2) (offset + 4)) ≡ length v)
      × (slice bs (offset + 4 + 106) (offset + 4 + 106 + 2) ≡ slice (v ++ rest) 106 108)
      × (length bs ≡ offset + 4 + length v + length rest)
unfolding to_le_bytes
reads pre v rest t ht hv =
    let block = encode_one t v rest in
    let o = length pre in
    (
      ap from_le_bytes (slice_at pre block 0 2 o (o + 2) (omega arith) refl)
          ∙ from_le_bytes-to_le_bytes 2 t (omega arith),
      ap from_le_bytes (slice_at pre block 2 4 (o + 2) (o + 4) refl refl)
          ∙ from_le_bytes-to_le_bytes 2 (length v) (omega arith),
      slice_at pre block 110 112 (o + 4 + 106) (o + 4 + 106 + 2) (omega arith) (omega arith),
      omega (arith, length-append pre block, length-append v rest),
    )

slice-within :
    (xs ys : Bytes) (i j : ℕ) → i ≤ j → j ≤ length xs → slice (xs ++ ys) i j ≡ slice xs i j
slice-within xs ys zero j hi hj = take-within (j - 0) xs ys (omega arith)
slice-within [] ys (suc i) zero hi hj = ground arith
slice-within [] ys (suc i) (suc j) hi hj = ground arith
slice-within (x ∷ xs) ys (suc i) zero hi hj = ground arith
slice-within (x ∷ xs) ys (suc i) (suc j) hi hj =
    let size : suc j - suc i ≡ j - i = omega arith in
    rw size (slice-within xs ys i j (omega arith) (omega arith))

visit_end :
    (bs : Bytes) (offset : ℕ) (rest : Scan)
    → length bs < offset + 4
    → visit bs offset rest ≡ done none
unfolding visit
visit_end bs offset rest h = ground arith

first_fee_lem :
    (t : ℕ) (v : Bytes) (es : List Extension)
    → (if t == 1
        then (if ltb (length v) 108
            then done none
            else done (some (from_le_bytes (slice v 106 108))))
        else done (first_fee es))
      ≡ done (first_fee ((t, v) ∷ es))
first_fee_lem t v es = ground arith

-- One pass over a well-formed extension.
visit_encoded :
    (bs v : Bytes) (offset t n fee : ℕ) (rest : Scan)
    → from_le_bytes (slice bs offset (offset + 2)) ≡ t
    → value_length bs offset ≡ n
    → offset + 4 + n ≤ length bs
    → (108 ≤ n → from_le_bytes (slice bs (offset + 4 + 106) (offset + 4 + 106 + 2)) ≡ fee)
    → visit bs offset rest
      ≡ (if t == 1 then (if ltb n 108 then done none else done (some fee)) else rest)
unfolding visit
visit_encoded bs v offset t n fee rest kind size total value = ground arith

scan_encoded :
    (es : List Extension) (pre bs : Bytes) (fuel offset : ℕ)
    → bs ≡ pre ++ encode es
    → offset ≡ length pre
    → All Fits es
    → length (encode es) ≤ fuel
    → scan_extensions (suc fuel) bs offset ≡ done (first_fee es)
unfolding scan_extensions to_le_bytes
scan_encoded [] pre bs fuel offset eb eo fits h =
    let size : length bs ≡ offset = ap length eb ∙ omega (arith, length-append pre [], eo) in
    visit_end bs offset _ (omega (arith, size))
scan_encoded ((t, v) ∷ es) pre bs zero offset eb eo fits h = ground arith
scan_encoded ((t, v) ∷ es) pre bs (suc fuel) offset eb eo fits h =
    let facts = reads pre v (encode es) t fits.0.0 fits.0.1 in
    let size : value_length bs offset ≡ length v = rw (eb, eo) facts.1 in
    let total : length bs ≡ offset + 4 + length v + length (encode es) = rw (eb, eo) facts.3 in
    let value : slice bs (offset + 4 + 106) (offset + 4 + 106 + 2)
        ≡ slice (v ++ encode es) 106 108 =
      rw (eb, eo) facts.2 in
    let header = to_le_bytes 2 t ++ (to_le_bytes 2 (length v) ++ v) in
    let rest =
      scan_encoded es (pre ++ header) bs fuel (offset + 4 + value_length bs offset)
        (eb ∙ sym (append_assoc pre header (encode es)))
        (omega (arith, size, eo, length-append pre header)) fits.1
        (omega (arith, h, length-append v (encode es))) in
    visit_encoded bs v offset t (length v) (from_le_bytes (slice v 106 108)) _ (rw (eb, eo) facts.0)
      size (omega (arith, total))
      (λ long. ap from_le_bytes (value ∙ slice-within v (encode es) 106 108 (omega arith) long))
    ∙ ap
        (λ r.
          if t == 1
          then (if ltb (length v) 108
              then done none
              else done (some (from_le_bytes (slice v 106 108))))
          else r)
        rest
    ∙ first_fee_lem t v es

get_or-past : (xs ys : Bytes) (n d : ℕ) → n ≡ length xs → get_or (xs ++ ys) n d ≡ get_or ys 0 d
get_or-past [] [] n d h = refl
get_or-past [] (y ∷ ys) n d h = rw h refl
get_or-past (x ∷ xs) ys zero d h = ground arith
get_or-past (x ∷ xs) ys (suc n) d h = get_or-past xs ys n d (omega (arith, h))

guarded :
    (n tag : ℕ) (r : Scan)
    → 166 ≤ n
    → tag ≡ 1
    → (if ltb n 166 || not (tag == 1) then done none else r) ≡ r
guarded n tag r h e = ground arith

-- A well-formed mint account with extensions: 165 bytes, the account type, and the extensions. The
-- parser returns the newer fee of the first fee extension, or nothing when that extension is too
-- short or there is none.
pub parse_token2022_transfer_fee_bps-encode :
    (pre : Bytes) (es : List Extension)
    → length pre ≡ 165
    → All Fits es
    → parse_token2022_transfer_fee_bps (pre ++ 1 ∷ encode es) ≡ done (first_fee es)
unfolding parse_token2022_transfer_fee_bps
parse_token2022_transfer_fee_bps-encode pre es h fits =
    let bs = pre ++ 1 ∷ encode es in
    let size : length bs ≡ suc (165 + length (encode es)) =
      omega (arith, h, length-append pre (1 ∷ encode es)) in
    guarded (length bs) (get_or bs 165 0) _ (omega (arith, size))
      (get_or-past pre (1 ∷ encode es) 165 0 (sym h))
    ∙ rw size (
        scan_encoded es (pre ++ 1 ∷ []) bs (165 + length (encode es)) 166
          (sym (append_assoc pre (1 ∷ []) (encode es)))
          (omega (arith, h, length-append pre (1 ∷ []))) fits (omega arith))
