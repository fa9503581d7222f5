-- ===== src/Main/Args.antt =====
-- The options of `main` in wfey.c: the loop over `getopt` and the check behind it. `getopt`, `atoi` and `atof` are
-- outside: an option comes with its argument's value. A `double` is an interface.
use mathlib.Core.Path.{subst}
use wfey.Prelude.{
  ◌≤◌, ◌≡◌, ◌≢◌, refl, Bool, true, false, not, ◌&&◌, ◌||◌, Option, none, some, List, [], ◌∷◌, arith,
  is_some, Option-cases, inl, inr, ◌>>=?◌, >>=?-eq-some, unless_eq-some, some_eq, if◌then◌else◌,
}
use wfey.Prelude.Int.{ℤ, pos, negsuc, ltb_ℤ, eqb_ℤ}

-- What `main` does with the event rate: it compares it with 0.0, and has a very small one in place of 0.0.
pub record Rates : Type 1 where
  pub Rate : Type 0
  pub is_negative : Rate → Bool
  pub is_zero : Rate → Bool
  pub tiny : Rate
  pub tiny_positive : (is_negative tiny || is_zero tiny) ≡ false

-- The test on `-w`.
abbrev is_bad_percentage : ℤ → Bool
is_bad_percentage p = (ltb_ℤ (pos 100) p || ltb_ℤ p (pos 0)) && not (eqb_ℤ p (negsuc 0))

abbrev pub IsPercentage : ℤ → Type 0
IsPercentage (pos n) = n ≤ 100
IsPercentage (negsuc n) = n ≡ 0

is_bad_percentage-IsPercentage : (p : ℤ) → is_bad_percentage p ≡ false → IsPercentage p
is_bad_percentage-IsPercentage (pos n) h = ground arith
is_bad_percentage-IsPercentage (negsuc n) h = ground arith

module _ (rates : Rates) where
  open rates use {Rate, is_negative, is_zero, tiny, tiny_positive}

  -- What `getopt` returns, with the value of `optarg`.
  pub data Opt : Type 0 where
    help : Opt
    event_rate : Rate → Opt
    sources : ℤ → Opt
    processors : ℤ → Opt
    work : ℤ → Opt
    unknown : Opt

  -- The variables that the loop sets; `event_rate` has no value before `-e` gives it one.
  pub record Settings : Type 0 where
    pub num_sources : ℤ
    pub num_processors : ℤ
    pub rate : Option Rate
    pub work_perc : ℤ

  abbrev pub initial : Settings
  initial = record { num_sources = pos 0; num_processors = pos 0; rate = none; work_perc = pos 100 }

  -- The body of the loop; `none` where the program exits.
  unfoldable pub take_option : Opt → Settings → Option Settings
  take_option help s = none
  take_option (event_rate r) s =
      if is_negative r
      then none
      else some (record s { rate = some (if is_zero r then tiny else r) })
  take_option (sources n) s = some (record s { num_sources = n })
  take_option (processors n) s =
      if ltb_ℤ (pos 1) n then none else some (record s { num_processors = n })
  take_option (work p) s = if is_bad_percentage p then none else some (record s { work_perc = p })
  take_option unknown s = none

  unfoldable pub take_options : List Opt → Settings → Option Settings
  take_options [] s = some s
  take_options (o ∷ rest) s = take_option o s >>=? take_options rest

  -- The check behind the loop.
  unfoldable pub check_counts : Settings → Option Settings
  check_counts s =
      if eqb_ℤ s.num_processors (pos 0) || eqb_ℤ s.num_sources (pos 0) then none else some s

  unfoldable pub parse_args : List Opt → Option Settings
  unfolding take_options check_counts
  parse_args opts = take_options opts initial >>=? check_counts

  abbrev pub IsPositive : Option Rate → Type 0
  IsPositive none = Unit
  IsPositive (some r) = (is_negative r || is_zero r) ≡ false

  -- What the loop keeps.
  pub record IsTaken (s : Settings) : Type 0 where
    pub one_processor : ltb_ℤ (pos 1) s.num_processors ≡ false
    pub percentage : IsPercentage s.work_perc
    pub positive_rate : IsPositive s.rate

  take_option-IsTaken :
      (o : Opt) (s s' : Settings) → take_option o s ≡ some s' → IsTaken s → IsTaken s'
  unfolding take_option
  take_option-IsTaken help s s' e t = cc
  take_option-IsTaken unknown s s' e t = cc
  take_option-IsTaken (sources n) s s' e t = subst IsTaken (some_eq e) (record {
    one_processor = t.one_processor;
    percentage = t.percentage;
    positive_rate = t.positive_rate;
  })
  take_option-IsTaken (processors n) s s' e t =
      let (test, same) = unless_eq-some (ltb_ℤ (pos 1) n) e in
      subst IsTaken same (record {
        one_processor = test;
        percentage = t.percentage;
        positive_rate = t.positive_rate;
      })
  take_option-IsTaken (work p) s s' e t =
      let (test, same) = unless_eq-some (is_bad_percentage p) e in
      subst IsTaken same (record {
        one_processor = t.one_processor;
        percentage = is_bad_percentage-IsPercentage p test;
        positive_rate = t.positive_rate;
      })
  take_option-IsTaken (event_rate r) s s' e t =
      let (test, same) = unless_eq-some (is_negative r) e in
      subst IsTaken same (record {
        one_processor = t.one_processor;
        percentage = t.percentage;
        positive_rate = ground (arith, tiny_positive);
      })

  take_options-IsTaken :
      (opts : List Opt) (s s' : Settings) → take_options opts s ≡ some s' → IsTaken s → IsTaken s'
  unfolding take_options
  take_options-IsTaken [] s s' e t = subst IsTaken (some_eq e) t
  take_options-IsTaken (o ∷ rest) s s' e t =
      let (s1, first, later) = >>=?-eq-some (take_option o s) (take_options rest) e in
      take_options-IsTaken rest s1 s' later (take_option-IsTaken o s s1 first t)

  check_counts-eq :
      (s s' : Settings)
      → check_counts s ≡ some s'
      → (s ≡ s') × (s.num_processors ≢ pos 0) × (s.num_sources ≢ pos 0)
  unfolding check_counts
  check_counts-eq s s' e =
      let (test, same) =
        unless_eq-some (eqb_ℤ s.num_processors (pos 0) || eqb_ℤ s.num_sources (pos 0)) e in
      (same, λ p. ground arith, λ p. ground arith)

  -- What the options leave, where the program goes on: both counts are given, the processors are not above one, the
  -- percentage is in range or -1, and an event rate that was given is positive.
  pub parse_args-IsTaken :
      (opts : List Opt) (s : Settings)
      → parse_args opts ≡ some s
      → IsTaken s × (s.num_processors ≢ pos 0) × (s.num_sources ≢ pos 0)
  unfolding parse_args
  parse_args-IsTaken opts s e =
      let (s1, taken, counts) = >>=?-eq-some (take_options opts initial) check_counts e in
      let (same, p, q) = check_counts-eq s1 s counts in
      subst (λ (x : Settings). IsTaken x × (x.num_processors ≢ pos 0) × (x.num_sources ≢ pos 0))
        same
        (
          take_options-IsTaken opts initial s1 taken
              (record { one_processor = refl; percentage = omega arith; positive_rate = tt }),
          p,
          q,
        )

  -- Whether the loop goes on behind an option.
  pub accepts : Opt → Bool
  accepts help = false
  accepts unknown = false
  accepts (event_rate r) = not (is_negative r)
  accepts (sources n) = true
  accepts (processors n) = not (ltb_ℤ (pos 1) n)
  accepts (work p) = not (is_bad_percentage p)

  take_option-accepts : (o : Opt) (s : Settings) → is_some (take_option o s) ≡ accepts o
  unfolding take_option accepts
  take_option-accepts help s = refl
  take_option-accepts _ s = ground arith

  pub all_accepted : List Opt → Bool
  all_accepted [] = true
  all_accepted (o ∷ rest) = accepts o && all_accepted rest

  -- The loop goes on to its end exactly when every option is one that it accepts, whatever the order: `-h`, an
  -- unknown option, a negative rate, two processors or more, and a percentage out of range end the program, and
  -- nothing else does.
  take_options-all_accepted :
      (opts : List Opt) (s : Settings) → is_some (take_options opts s) ≡ all_accepted opts
  unfolding take_options all_accepted
  take_options-all_accepted [] s = refl
  take_options-all_accepted (o ∷ rest) s = elim (Option-cases (take_option o s)) [
    | inl ends ↦ rw (ends, ← take_option-accepts o s, ends) refl
    | inr (s1, goes_on) ↦
        rw (goes_on, ← take_option-accepts o s, goes_on) (take_options-all_accepted rest s1)
  ]
