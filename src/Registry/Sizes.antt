-- ===== src/Registry/Sizes.antt =====
-- Which sizes of an image are accepted.
use bb_action_router.Base.{
  ℕ, ◌+◌, ◌%◌, ◌^◌, ◌≤◌, ◌<◌, ◌≡◌, refl, ◌∙◌, ◌↔◌, inl, inr, true, List, [], ◌∷◌, arith, ltb,
  if◌then◌else◌, ltb→lt, Bool-cases,
}
use bb_action_router.Status.{Error, ok, err, status, invalid_argument, ◌>>=◌}
use bb_action_router.Registry.Puller.{greater, total_size, validate_image_size}

unfoldable pub sum : List ℕ → ℕ
sum [] = 0
sum (n ∷ ns) = n + sum ns

total_size-sum :
    (sizes : List ℕ) (total : ℕ) → total_size sizes total % 2 ^ 64 ≡ (total + sum sizes) % 2 ^ 64
unfolding sum total_size
total_size-sum [] total = omega arith
total_size-sum (n ∷ ns) total = let h = total_size-sum ns ((total + n) % 2 ^ 64) in omega arith

total_size-bound : (sizes : List ℕ) (total : ℕ) → total < 2 ^ 64 → total_size sizes total < 2 ^ 64
unfolding total_size
total_size-bound [] total h = h
total_size-bound (n ∷ ns) total h = total_size-bound ns ((total + n) % 2 ^ 64) (omega arith)

greater_small : (a b : ℕ) → a < 2 ^ 63 → b < 2 ^ 63 → greater a b ≡ ltb b a
greater_small a b h k =
    let p : (a + 2 ^ 63) % 2 ^ 64 ≡ a + 2 ^ 63 = omega arith in
    let q : (b + 2 ^ 63) % 2 ^ 64 ≡ b + 2 ^ 63 = omega arith in rw (p, q) (ground arith)

refused_above :
    (limit n : ℕ) (e : Error)
    → ((if ltb limit n then err e else ok (tt {0})) ≡ ok (tt {0})) ↔ (n ≤ limit)
refused_above limit n e = elim (Bool-cases (ltb limit n)) [
  | inl t ↦ let above = ltb→lt limit n t in rw t ((λ f. cc f), λ f. ground arith)
  | inr t ↦ rw t ((λ f. ground arith), λ f. refl)
]

-- If there is a limit and the sizes of the layers do not add up to more than an int64 holds, an
-- image is accepted just if they do not add up to more than the limit.
pub validate_image_size_lem :
    (maximum : ℕ) (sizes : List ℕ)
    → 0 < maximum
    → maximum < 2 ^ 63
    → sum sizes < 2 ^ 63
    → (validate_image_size maximum (ok sizes) ≡ ok tt) ↔ (sum sizes ≤ maximum)
unfolding validate_image_size ◌>>=◌
validate_image_size_lem maximum sizes some_limit limit small =
    let total : total_size sizes 0 ≡ sum sizes =
      let a = total_size-sum sizes 0 in
      let b = total_size-bound sizes 0 (omega arith) in omega arith in
    let low : greater maximum 0 ≡ true =
      greater_small maximum 0 limit (omega arith) ∙ ground arith in
    let high : greater (total_size sizes 0) maximum ≡ ltb maximum (sum sizes) =
      rw total (greater_small (sum sizes) maximum small limit) in
    rw (low, high)
      (refused_above maximum (sum sizes)
        (status invalid_argument "Image size %.2f MB exceeds maximum allowed size %.2f MB"))
