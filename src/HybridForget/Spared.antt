-- ===== src/HybridForget/Spared.antt =====
-- What `apply_hybrid_forget` drops, and when it stops.
use clx_preprocessing.Prelude.{
  All, Bool, Bool-cases, List, [], ap, arith, false, inl, inr, leb, length, ltb, refl, subst, suc,
  sym, true, ℕ, ◌∷◌, ◌≡◌, ◌≤◌, ◌⊎◌,
}
use clx_preprocessing.Chars.{Text}
use clx_preprocessing.ContextCompress.{Msg as Msg, contains as contains}
use clx_preprocessing.ContextCompress.Pinned.{sort as sort, contains-sort as contains-sort}
use clx_preprocessing.HybridForget.{
  Dropping, Scored, any_left, apply_hybrid_forget, drop_one, drop_until, forgotten, is_nil,
  kept_all, scored, sorted, without,
}
use clx_preprocessing.HybridForget.Ordered.{All-sort, All-sorted, sorted-All}

-- Dropping depends on which indices are dropped alone.
without-same :
    (a b : List ℕ) (idx : ℕ) (ms : List Msg)
    → ((n : ℕ) → contains n a ≡ contains n b)
    → without a idx ms ≡ without b idx ms
unfolding without
without-same a b idx [] h = refl
without-same a b idx (m ∷ ms) h = rw (h idx, without-same a b (suc idx) ms h) refl

-- No pinned index.
abbrev Unpinned : List ℕ → List ℕ → Type 0
Unpinned pinned dropped = All (λ i. contains i pinned ≡ false) dropped

module _ (lower : Text → Text) (mentions_file : Text → Bool) (backup : ℕ → Text → Bool) where
  abbrev State : Type 0
  State = Dropping lower mentions_file backup

  scored-Unpinned :
      (pinned : List ℕ) (total idx : ℕ) (ms : List Msg)
      → All
          (λ p. contains p.0 pinned ≡ false)
          (scored lower mentions_file backup pinned total idx ms)
  unfolding scored
  scored-Unpinned pinned total idx [] = tt
  scored-Unpinned pinned total idx (m ∷ ms) = elim (Bool-cases (contains idx pinned)) [
    | inl held ↦ rw (held) (scored-Unpinned pinned total (suc idx) ms)
    | inr free ↦ rw (free) (free, scored-Unpinned pinned total (suc idx) ms)
  ]

  drop_until-Unpinned :
      (pinned : List ℕ) (messages : List Msg) (target : ℕ) (l : Scored) (d : State)
      → All (λ p. contains p.0 pinned ≡ false) l
      → Unpinned pinned d.to_drop
      → Unpinned pinned (drop_until lower mentions_file backup messages target l d).to_drop
  unfolding drop_until drop_one
  drop_until-Unpinned pinned messages target [] d h k = k
  drop_until-Unpinned pinned messages target ((idx, score) ∷ l) d h k =
      elim (Bool-cases (leb d.current_total target)) [
        | inl met ↦ rw (met) k
        | inr above ↦ rw (above) (
            drop_until-Unpinned pinned messages target l
              (drop_one lower mentions_file backup messages idx d) h.1 (h.0, k))
      ]

  drop_until-contains :
      (n : ℕ) (messages : List Msg) (target : ℕ) (l : Scored) (d : State)
      → contains n d.to_drop ≡ true
      → contains n (drop_until lower mentions_file backup messages target l d).to_drop ≡ true
  unfolding drop_until drop_one contains
  drop_until-contains n messages target [] d h = h
  drop_until-contains n messages target ((idx, score) ∷ l) d h =
      elim (Bool-cases (leb d.current_total target)) [
        | inl met ↦ rw (met) h
        | inr above ↦ rw (above) (
            drop_until-contains n messages target l
              (drop_one lower mentions_file backup messages idx d) (ground (arith, h)))
      ]

  -- The target is met, or all the scored indices have been dropped.
  abbrev Ends : ℕ → Scored → State → Type 0
  Ends target l d = (d.current_total ≤ target) ⊎ All (λ p. contains p.0 d.to_drop ≡ true) l

  drop_until-Ends :
      (messages : List Msg) (target : ℕ) (l : Scored) (d : State)
      → Ends target l (drop_until lower mentions_file backup messages target l d)
  drop_until-Ends messages target [] d = inr tt
  drop_until-Ends messages target ((idx, score) ∷ l) d =
      elim (Bool-cases (leb d.current_total target)) [
        | inl met ↦
            let stop : drop_until lower mentions_file backup messages target ((idx, score) ∷ l) d
                ≡ d =
              (unfold drop_until in rw (met) refl) in
            subst (Ends target ((idx, score) ∷ l)) (sym stop) (inl (ground (arith, met)))
        | inr above ↦
            let next = drop_one lower mentions_file backup messages idx d in
            let goes : drop_until lower mentions_file backup messages target ((idx, score) ∷ l) d
                ≡ drop_until lower mentions_file backup messages target l next =
              (unfold drop_until in rw (above) refl) in
            let now : contains idx next.to_drop ≡ true =
              (unfold drop_one contains in ground arith) in
            subst (Ends target ((idx, score) ∷ l)) (sym goes)
              (elim (drop_until-Ends messages target l next) [
                | inl met ↦ inl met
                | inr all ↦ inr (drop_until-contains idx messages target l next now, all)
              ])
      ]

  nothing_left :
      (pinned to_drop : List ℕ) (total idx : ℕ) (ms : List Msg)
      → All
          (λ p. contains p.0 to_drop ≡ true)
          (scored lower mentions_file backup pinned total idx ms)
      → any_left pinned to_drop idx ms ≡ false
  unfolding scored any_left
  nothing_left pinned to_drop total idx [] h = refl
  nothing_left pinned to_drop total idx (m ∷ ms) h = elim (Bool-cases (contains idx pinned)) [
    | inl held ↦ rw (held) (nothing_left pinned to_drop total (suc idx) ms (rw held at h))
    | inr free ↦
        let k : (contains idx to_drop ≡ true)
            × All (λ p. contains p.0 to_drop ≡ true)
                (scored lower mentions_file backup pinned total (suc idx) ms) =
          (rw free at h) in
        rw (free, k.0) (nothing_left pinned to_drop total (suc idx) ms k.1)
  ]

  abbrev begun : ℕ → State
  begun total = record { to_drop = []; no_backup = false; current_total = total; calls = 0 }

  -- What the answer is made of.
  forgotten-Unpinned :
      (messages : List Msg) (pinned : List ℕ) (target : ℕ) (d : State)
      → Unpinned pinned d.to_drop
      → Unpinned pinned
          (forgotten lower mentions_file backup messages pinned target d).dropped_indices
  unfolding forgotten
  forgotten-Unpinned messages pinned target d h =
      All-sort (λ i. contains i pinned ≡ false) d.to_drop h

  forgotten-without :
      (messages : List Msg) (pinned : List ℕ) (target : ℕ) (d : State)
      → (forgotten lower mentions_file backup messages pinned target d).messages
        ≡ without
            (forgotten lower mentions_file backup messages pinned target d).dropped_indices
            0
            messages
  unfolding forgotten
  forgotten-without messages pinned target d =
      without-same d.to_drop (sort d.to_drop) 0 messages (λ n. sym (contains-sort n d.to_drop))

  without-nothing : (idx : ℕ) (ms : List Msg) → without [] idx ms ≡ ms
  unfolding without contains
  without-nothing idx [] = refl
  without-nothing idx (m ∷ ms) = ap (λ l. m ∷ l) (without-nothing (suc idx) ms)

  -- The messages of the answer are those of the context, in order, less the dropped indices, and no
  -- dropped index is pinned.
  pub forget_spares :
      (messages : List Msg) (pinned : List ℕ) (total target : ℕ)
      → ((apply_hybrid_forget lower mentions_file backup messages pinned total target).messages
          ≡ without
              (apply_hybrid_forget lower mentions_file backup messages pinned total
                target).dropped_indices
              0
              messages)
        × All
            (λ i. contains i pinned ≡ false)
            (apply_hybrid_forget lower mentions_file backup messages pinned total
              target).dropped_indices
  unfolding apply_hybrid_forget kept_all
  forget_spares messages pinned total target =
      let removable = scored lower mentions_file backup pinned (length messages) 0 messages in
      let dropped =
        drop_until lower mentions_file backup messages target (sorted removable) (begun total) in
      elim (Bool-cases (leb total target)) [
        | inl met ↦ rw (met) (sym (without-nothing 0 messages), tt)
        | inr above ↦ elim (Bool-cases (is_nil lower mentions_file backup removable)) [
          | inl nothing ↦ rw (above, nothing) (sym (without-nothing 0 messages), tt)
          | inr some_ ↦
              rw (above, some_)
                (
                  forgotten-without messages pinned target dropped,
                  forgotten-Unpinned messages pinned target dropped (
                      drop_until-Unpinned pinned messages target (sorted removable) (begun total)
                        (All-sorted (λ p. contains p.0 pinned ≡ false) removable
                          (scored-Unpinned pinned (length messages) 0 messages))
                        tt),
                )
        ]
      ]

  forgotten-meets :
      (messages : List Msg) (pinned : List ℕ) (target : ℕ) (d : State)
      → Ends target
          (sorted (scored lower mentions_file backup pinned (length messages) 0 messages))
          d
      → ((forgotten lower mentions_file backup messages pinned target d).tokens_after ≤ target)
        ⊎ ((forgotten lower mentions_file backup messages pinned target d).over_target_pinned_only
            ≡ true)
  unfolding forgotten
  forgotten-meets messages pinned target d (inl met) = inl met
  forgotten-meets messages pinned target d (inr all) =
      elim (Bool-cases (ltb target d.current_total)) [
        | inr met ↦ inl (ground (arith, met))
        | inl above ↦
            let none_left =
              nothing_left pinned d.to_drop (length messages) 0 messages
                (sorted-All (λ p. contains p.0 d.to_drop ≡ true) _ all) in
            inr (rw (above, none_left) refl)
      ]

  -- The answer meets the target, or says that it could not because only pinned messages are left.
  pub forget_meets :
      (messages : List Msg) (pinned : List ℕ) (total target : ℕ)
      → ((apply_hybrid_forget lower mentions_file backup messages pinned total target).tokens_after
          ≤ target)
        ⊎ ((apply_hybrid_forget lower mentions_file backup messages pinned total
              target).over_target_pinned_only
            ≡ true)
  unfolding apply_hybrid_forget kept_all
  forget_meets messages pinned total target =
      let removable = scored lower mentions_file backup pinned (length messages) 0 messages in
      let dropped =
        drop_until lower mentions_file backup messages target (sorted removable) (begun total) in
      elim (Bool-cases (leb total target)) [
        | inl met ↦ rw (met) (inl (ground (arith, met)))
        | inr above ↦ elim (Bool-cases (is_nil lower mentions_file backup removable)) [
          | inl nothing ↦ rw (above, nothing) (inr refl)
          | inr some_ ↦
              rw (above, some_)
                (forgotten-meets messages pinned target dropped
                  (drop_until-Ends messages target (sorted removable) (begun total)))
        ]
      ]
