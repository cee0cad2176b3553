-- ===== src/Dispatch/Paths.antt =====
-- Which work ids name a file.
use clx_preprocessing.Prelude.{
  Bool-cases, String, ap, arith, eq_cases, eq_iff, inl, inr, refl, subst, sym, true, ◌↔◌, ◌∙◌, ◌≡◌,
  ◌≢◌,
}
use clx_preprocessing.Result.{ok}
use clx_preprocessing.Dispatch.{Python, is_safe, safe_part, validated_work_id}

abbrev pub AllSafe : Python → String → Type 0
AllSafe py String.[] = Unit
AllSafe py (String.◌∷◌ c s) = (is_safe py c ≡ true) × AllSafe py s

safe_part-AllSafe : (py : Python) (s : String) → AllSafe py (safe_part py s)
unfolding safe_part
safe_part-AllSafe py String.[] = tt
safe_part-AllSafe py (String.◌∷◌ c s) = elim (Bool-cases (is_safe py c)) [
  | inl good ↦ rw good (good, safe_part-AllSafe py s)
  | inr bad ↦ rw bad (safe_part-AllSafe py s)
]

safe_part_of_AllSafe : (py : Python) (s : String) → AllSafe py s → safe_part py s ≡ s
unfolding safe_part
safe_part_of_AllSafe py String.[] h = refl
safe_part_of_AllSafe py (String.◌∷◌ c s) h =
    rw h.0 (ap (λ t. String.◌∷◌ c t) (safe_part_of_AllSafe py s h.1))

-- A work id is accepted exactly where it is not empty and each of its characters is alphanumeric, a
-- dash or an underscore, and it is then used as it stands.
pub validated_work_id_iff :
    (py : Python) (work_id w : String)
    → (validated_work_id py work_id ≡ ok w) ↔ ((w ≡ work_id) × (w ≢ "") × AllSafe py work_id)
unfolding validated_work_id
validated_work_id_iff py work_id w = (forth, back)
  where
    forth : validated_work_id py work_id ≡ ok w → (w ≡ work_id) × (w ≢ "") × AllSafe py work_id
    forth h =
        let safe = safe_part py work_id in
        elim (eq_cases safe "") [
          | inl (e, _) ↦ absurd (ground (arith, h, e))
          | inr (e, nonempty) ↦ elim (eq_cases safe work_id) [
            | inr (d, _) ↦ absurd (ground (arith, h, e, d))
            | inl (d, same) ↦
                let is : safe ≡ w = ground (arith, h, e, d) in
                (
                  sym is ∙ same,
                  λ x. nonempty (is ∙ x),
                  subst (AllSafe py) same (safe_part-AllSafe py work_id),
                )
          ]
        ]

    back : (w ≡ work_id) × (w ≢ "") × AllSafe py work_id → validated_work_id py work_id ≡ ok w
    back (same, nonempty, all) =
        let kept = safe_part_of_AllSafe py work_id all in
        rw (kept) (elim (eq_cases work_id "") [
          | inl (_, empty) ↦ absurd (nonempty (same ∙ empty))
          | inr (e, _) ↦ rw (e, (eq_iff work_id work_id).1 refl) (ap ok (sym same))
        ])
