-- ===== src/Saturn/Scheduler/Bans.antt =====
-- What the scheduler of src/runner.rs lets through, and how its bans end.
use aiiiia.Saturn.Scheduler.{
  banned_stats, begin_iteration, with_stats, with_banned, search_begun, RuleStats, BackoffScheduler,
  entry_of, put_entry, stats_for, doubled, threshold, total, search, still_banned, unban, can_stop,
}
use aiiiia.Prelude.Int.{as_u64}
use aiiiia.Prelude.{
  ==_iff, ap, ◌∙◌, subst, sym, min, ◌*◌, inl, inr, Bool, ◌||◌, arith, ltb, if◌then◌else◌, lt→ltb,
  Bool-cases, ◌+◌, ◌^◌, ◌≤◌, ◌<◌, ◌≡◌, refl, true, false, some, List, [], ◌∷◌, ℕ, ◌⊎◌, ◌==◌,
}

entry_of-put_entry :
    (name : ℕ) (s : RuleStats) (stats : List (ℕ × RuleStats))
    → entry_of name (put_entry name s stats) ≡ some s
unfolding entry_of put_entry
entry_of-put_entry name s [] = rw ((==_iff name name).1 refl) refl
entry_of-put_entry name s ((other, t) ∷ stats) = elim (Bool-cases (other == name)) [
  | inl e ↦ rw (e, (==_iff name name).1 refl) refl
  | inr e ↦ rw (e, e, entry_of-put_entry name s stats) refl
]

not_lt : (a b : ℕ) → ltb a b ≡ false → b ≤ a
not_lt a b h = ground arith

le_not_lt : (a b : ℕ) → a ≤ b → ltb b a ≡ false
le_not_lt a b h = ground arith

or_both : (a b : Bool) → a ≡ false → b ≡ false → (a || b) ≡ false
or_both a b h k = ground arith

not_banned :
    (iteration later : ℕ) (s : RuleStats)
    → iteration ≤ later
    → ltb later
        (if ltb iteration s.banned_until
          then record s { banned_until = iteration }
          else s).banned_until
      ≡ false
not_banned iteration later s h = elim (Bool-cases (ltb iteration s.banned_until)) [
  | inl e ↦ rw e (ground arith)
  | inr e ↦ rw e (ground arith)
]

still_banned-unban :
    (iteration later : ℕ) (stats : List (ℕ × RuleStats))
    → iteration ≤ later
    → still_banned later (unban iteration stats) ≡ false
still_banned-unban iteration later [] h = refl
still_banned-unban iteration later ((name, s) ∷ stats) h =
    or_both
      (ltb later
        (if ltb iteration s.banned_until
          then record s { banned_until = iteration }
          else s).banned_until)
      (still_banned later (unban iteration stats)) (not_banned iteration later s h)
      (still_banned-unban iteration later stats h)

asked :
    (banned : Bool) (x y : BackoffScheduler)
    → banned ≡ false
    → (let r : Bool × BackoffScheduler = if banned then (false, x) else (true, y) in r.0 ≡ false)
    → ⊥
asked true x y e h = cc e
asked false x y e h = cc h

-- After a refusal to stop no rule is banned, and the next question, with no search in between, is
-- answered with yes.
pub can_stop-again :
    (iteration later : ℕ) (b : BackoffScheduler)
    → iteration ≤ later
    → (can_stop iteration b).0 ≡ false
    → (can_stop later (can_stop iteration b).1).0 ≡ true
unfolding can_stop
can_stop-again iteration later b h refused = elim (Bool-cases (still_banned iteration b.stats)) [
  | inl e ↦ rw e (rw (still_banned-unban iteration later b.stats h) refl)
  | inr e ↦ absurd (
      asked (still_banned iteration b.stats) (record b { stats = unban iteration b.stats }) b e
        refused)
]

stats_for-begin_iteration :
    (iteration name : ℕ) (b : BackoffScheduler)
    → stats_for name (begin_iteration iteration b) ≡ stats_for name b
unfolding stats_for
stats_for-begin_iteration iteration name b = elim (Bool-cases (b.current_iteration == iteration)) [
  | inl e ↦ rw e refl
  | inr e ↦ rw e refl
]

stats_for-with_stats :
    (name : ℕ) (s : RuleStats) (b : BackoffScheduler)
    → stats_for name (with_banned name (with_stats name s b)) ≡ s
unfolding stats_for
stats_for-with_stats name s b = rw (stats_for, entry_of-put_entry name s b.stats) refl

as_u64_small : (n : ℕ) → n < 2 ^ 64 → as_u64 n ≡ n
as_u64_small n h = ground arith

module _ {M : Type 0} (len : M → ℕ) where
  -- How many matches there are, over all the classes matched.
  abbrev pub match_count : List M → ℕ
  match_count [] = 0
  match_count (m ∷ matches) = len m + match_count matches

  -- The rule is not banned at the iteration, and has found no more matches than its limit doubled for each
  -- of its bans up to sixteen.
  abbrev pub IsWithinLimit : ℕ → List M → RuleStats → Type 0
  IsWithinLimit iteration matches s =
      (s.banned_until ≤ iteration)
      × (match_count matches ≤ s.match_limit * 2 ^ min s.times_banned 16)

  total_lem :
      (matches : List M) → match_count matches < 2 ^ 64 → total len matches ≡ match_count matches
  total_lem [] h = refl
  total_lem (m ∷ matches) h = let rest = total_lem matches (omega arith) in rw rest (ground arith)

  search_begun_lem :
      (iteration name : ℕ) (matches : List M) (s : RuleStats) (b : BackoffScheduler)
      → match_count matches < 2 ^ 64
      → s.match_limit * 2 ^ min s.times_banned 16 < 2 ^ 64
      → (((search_begun len iteration name matches s b).0 ≡ matches)
          × IsWithinLimit iteration matches s)
        ⊎ (((search_begun len iteration name matches s b).0 ≡ [])
            × (¬ IsWithinLimit iteration matches s))
  search_begun_lem iteration name matches s b few low =
      elim (Bool-cases (ltb iteration s.banned_until)) [
        | inl e ↦ rw e (inr (refl, (λ h. absurd (ground arith))))
        | inr e ↦
            let count = total_lem matches few in
            let limit : threshold s ≡ s.match_limit * 2 ^ min s.times_banned 16 =
              as_u64_small (s.match_limit * 2 ^ min s.times_banned 16) low in
            elim (Bool-cases (ltb (threshold s) (total len matches))) [
              | inl k ↦
                  rw (e, k)
                    (inr (refl, (λ h. cc (k, le_not_lt _ _ (carried_back count limit h.1)))))
              | inr k ↦
                  rw (e, k)
                    (inl (
                      refl,
                      (
                        not_lt iteration s.banned_until e,
                        carried count limit (not_lt (threshold s) (total len matches) k),
                      ),
                    ))
            ]
      ]
    where
      carried : {t u v w : ℕ} → t ≡ u → v ≡ w → t ≤ v → u ≤ w
      carried e f h = rw (← e, ← f) h

      carried_back : {t u v w : ℕ} → t ≡ u → v ≡ w → u ≤ w → t ≤ v
      carried_back e f h = rw (e, f) h

  search_begun_skips :
      (iteration name : ℕ) (matches : List M) (s : RuleStats) (b : BackoffScheduler)
      → iteration < s.banned_until
      → (search_begun len iteration name matches s b).0 ≡ []
  search_begun_skips iteration name matches s b h = rw (lt→ltb iteration s.banned_until h) refl

  search_begun_bans :
      (iteration name : ℕ) (matches : List M) (s : RuleStats) (b : BackoffScheduler)
      → s.banned_until ≤ iteration
      → threshold s < total len matches
      → search_begun len iteration name matches s b
        ≡ ([], with_banned name (with_stats name (banned_stats iteration s) b))
  search_begun_bans iteration name matches s b free much =
      rw (le_not_lt s.banned_until iteration free, lt→ltb (threshold s) (total len matches) much)
        refl

  -- Where the number of matches and the doubled limit of the rule fit a usize, a search gives all the
  -- matches when the rule is not banned at that iteration and has found no more than its limit, doubled
  -- for each of its bans up to sixteen, and gives nothing otherwise.
  pub search_lem :
      (iteration name : ℕ) (matches : List M) (b : BackoffScheduler)
      → match_count matches < 2 ^ 64
      → (stats_for name b).match_limit * 2 ^ min (stats_for name b).times_banned 16 < 2 ^ 64
      → (((search len iteration name matches b).0 ≡ matches)
          × IsWithinLimit iteration matches (stats_for name b))
        ⊎ (((search len iteration name matches b).0 ≡ [])
            × (¬ IsWithinLimit iteration matches (stats_for name b)))
  unfolding search
  search_lem iteration name matches b few low =
      let begun = begin_iteration iteration b in
      let same = stats_for-begin_iteration iteration name b in
      subst
        (λ s.
          (((search len iteration name matches b).0 ≡ matches) × IsWithinLimit iteration matches s)
          ⊎ (((search len iteration name matches b).0 ≡ [])
              × (¬ IsWithinLimit iteration matches s)))
        same
        (search_begun_lem iteration name matches (stats_for name begun) begun few
          (subst (λ s. s.match_limit * 2 ^ min s.times_banned 16 < 2 ^ 64) (sym same) low))

  -- A rule that is not banned and finds more than its limit gives nothing, and nothing again at each
  -- iteration before the ban ends, where the end of the ban fits a usize.
  pub search-banned :
      (iteration name later : ℕ) (matches others : List M) (b : BackoffScheduler)
      → (stats_for name b).banned_until ≤ iteration
      → threshold (stats_for name b) < total len matches
      → later < iteration + doubled (stats_for name b) (stats_for name b).ban_length
      → iteration + doubled (stats_for name b) (stats_for name b).ban_length < 2 ^ 64
      → ((search len iteration name matches b).0 ≡ [])
        × ((search len later name others (search len iteration name matches b).1).0 ≡ [])
  unfolding search
  search-banned iteration name later matches others b free much before fits =
      let same = stats_for-begin_iteration iteration name b in
      let s = stats_for name b in
      let begun = begin_iteration iteration b in
      let after = with_banned name (with_stats name (banned_stats iteration s) begun) in
      let first : search len iteration name matches b ≡ ([], after) =
        ap (λ t. search_begun len iteration name matches t begun) same
        ∙ search_begun_bans iteration name matches s begun free much in
      let ends : stats_for name (begin_iteration later after) ≡ banned_stats iteration s =
        stats_for-begin_iteration later name after
        ∙ stats_for-with_stats name (banned_stats iteration s) begun in
      (
        ap (λ r. r.0) first,
        ap (λ r. (search len later name others r.1).0) first
            ∙ ap (λ t. (search_begun len later name others t (begin_iteration later after)).0) ends
            ∙ search_begun_skips later name others (banned_stats iteration s)
                (begin_iteration later after) (ground arith),
      )
