-- ===== src/Recommendations/Configuration.antt =====
-- backend/app/recommendations/configuration.py: settings from a frozen whitelist.
use ai_driven_autonomous_no.Prelude.{
  ℕ, ◌≤◌, ◌≡◌, refl, sym, ap, subst, ◌∙◌, arith, ℤ, pos, negsuc, ◌⊎◌, inl, inr, String, Bool, true,
  false, not, ◌&&◌, Option, none, some, List, [], ◌∷◌, leb, leb→le, str_eq, and_true, not-false,
  if◌then◌else◌, if_cases,
}
use mathlib.Core.Option.{some-injective}

pub data ProtectedConfigurationDomain : Type 0 where
  security durability consistency data_integrity : ProtectedConfigurationDomain

pub data WhitelistedConfigurationSetting : Type 0 where
  telemetry_window_seconds evaluation_sample_count : WhitelistedConfigurationSetting
  post_deployment_window_seconds : WhitelistedConfigurationSetting

pub record ConfigurationRecommendation : Type 0 where
  pub parameter_name : Option WhitelistedConfigurationSetting
  pub proposed_value : Option ℤ
  pub human_approval_required : Bool
  pub accepted : Bool
  pub reason_codes : List String

-- `WhitelistedConfigurationSetting(parameter_name)`
unfoldable pub setting_of : String → Option WhitelistedConfigurationSetting
setting_of name =
    if str_eq name "telemetry_window_seconds"
    then some telemetry_window_seconds
    else if str_eq name "evaluation_sample_count"
    then some evaluation_sample_count
    else if str_eq name "post_deployment_window_seconds"
    then some post_deployment_window_seconds
    else none

-- `_RANGES`
unfoldable pub range_of : WhitelistedConfigurationSetting → ℕ × ℕ
range_of telemetry_window_seconds = (10, 3600)
range_of evaluation_sample_count = (1, 1000)
range_of post_deployment_window_seconds = (10, 86400)

-- minimum <= value <= maximum
unfoldable pub is_in_range : ℕ → ℕ → ℤ → Bool
is_in_range minimum maximum (pos n) = leb minimum n && leb n maximum
is_in_range minimum maximum (negsuc n) = false

abbrev pub turned_down :
    Option WhitelistedConfigurationSetting → String → ConfigurationRecommendation
turned_down setting reason = record {
  parameter_name = setting;
  proposed_value = none;
  human_approval_required = true;
  accepted = false;
  reason_codes = reason ∷ [];
}

abbrev pub is_weakening : List ProtectedConfigurationDomain → Bool
is_weakening [] = false
is_weakening (d ∷ domains) = true

abbrev pub advise :
    ℤ
    → List ProtectedConfigurationDomain
    → Option WhitelistedConfigurationSetting
    → ConfigurationRecommendation
advise value domains none = turned_down none "UNKNOWN_PARAMETER"
advise value domains (some setting) =
    if is_weakening domains
    then turned_down (some setting) "REJECTED_SAFETY_INVARIANT"
    else if not (is_in_range (range_of setting).0 (range_of setting).1 value)
    then turned_down (some setting) "VALUE_OUT_OF_RANGE"
    else record {
      parameter_name = some setting;
      proposed_value = some value;
      human_approval_required = true;
      accepted = true;
      reason_codes = [];
    }

unfoldable pub recommend_setting :
    String → ℤ → List ProtectedConfigurationDomain → ConfigurationRecommendation
unfolding setting_of range_of is_in_range
recommend_setting name value domains = advise value domains (setting_of name)

-- A proposal that may be accepted: an amount in the range of the whitelisted setting of that name,
-- weakening no protected domain.
pub record IsAcceptable (name : String) (value : ℤ) (domains : List ProtectedConfigurationDomain)
    : Type 0 where
  pub setting : WhitelistedConfigurationSetting
  pub listed : setting_of name ≡ some setting
  pub amount : ℕ
  pub is_amount : value ≡ pos amount
  pub above : (range_of setting).0 ≤ amount
  pub below : amount ≤ (range_of setting).1
  pub harmless : domains ≡ []

-- An advice that proposes the value, in the setting of the name.
pub record IsAccepted (name : String) (value : ℤ) (domains : List ProtectedConfigurationDomain)
    (r : ConfigurationRecommendation) : Type 0 where
  pub acceptable : IsAcceptable name value domains
  pub carried : r.proposed_value ≡ some value
  pub was_accepted : r.accepted ≡ true

-- An advice without a value, of a proposal that may not be accepted.
pub record IsTurnedDown (name : String) (value : ℤ) (domains : List ProtectedConfigurationDomain)
    (r : ConfigurationRecommendation) : Type 0 where
  pub unacceptable : ¬ IsAcceptable name value domains
  pub no_value : r.proposed_value ≡ none
  pub not_accepted : r.accepted ≡ false

abbrev pub IsAdvice :
    String → ℤ → List ProtectedConfigurationDomain → ConfigurationRecommendation → Type 0
IsAdvice name value domains r =
    (r.human_approval_required ≡ true)
    × (r.parameter_name ≡ setting_of name)
    × (IsTurnedDown name value domains r ⊎ IsAccepted name value domains r)

in_range : (lo hi n : ℕ) → lo ≤ n → n ≤ hi → is_in_range lo hi (pos n) ≡ true
unfolding is_in_range
in_range lo hi n low high = ground arith

harmless_of :
    (domains : List ProtectedConfigurationDomain) → is_weakening domains ≡ false → domains ≡ []
harmless_of [] h = refl
harmless_of (d ∷ domains) h = cc

amount_of :
    (lo hi : ℕ) (value : ℤ)
    → is_in_range lo hi value ≡ true
    → (n : ℕ) × (value ≡ pos n) × (lo ≤ n) × (n ≤ hi)
unfolding is_in_range
amount_of lo hi (pos n) h =
    let (low, high) = and_true (leb lo n) (leb n hi) h in
    (n, refl, leb→le lo n low, leb→le n hi high)
amount_of lo hi (negsuc n) h = cc

not_weakening :
    (domains : List ProtectedConfigurationDomain) → is_weakening domains ≡ true → ¬ (domains ≡ [])
not_weakening domains weak empty = let strong = sym weak ∙ ap is_weakening empty in cc

far_from :
    {name : String} {domains : List ProtectedConfigurationDomain}
    (setting : WhitelistedConfigurationSetting) (value : ℤ)
    → not (is_in_range (range_of setting).0 (range_of setting).1 value) ≡ true
    → (ok : IsAcceptable name value domains) → ¬ (ok.setting ≡ setting)
far_from setting value far ok same =
    let low = subst (λ s. (range_of s).0 ≤ ok.amount) same ok.above in
    let high = subst (λ s. ok.amount ≤ (range_of s).1) same ok.below in
    let within = in_range (range_of setting).0 (range_of setting).1 ok.amount low high in
    let outside =
      subst (λ v. not (is_in_range (range_of setting).0 (range_of setting).1 v) ≡ true) ok.is_amount
        far in
    ground arith

advise-IsAdvice :
    (name : String) (value : ℤ) (domains : List ProtectedConfigurationDomain)
    (o : Option WhitelistedConfigurationSetting)
    → setting_of name ≡ o
    → IsAdvice name value domains (advise value domains o)
advise-IsAdvice name value domains none h = (
  refl,
  sym h,
  inl (record {
    unacceptable = λ ok. let none_listed = sym ok.listed ∙ h in cc;
    no_value = refl;
    not_accepted = refl;
  }),
)
advise-IsAdvice name value domains (some setting) h =
    if_cases (IsAdvice name value domains) (is_weakening domains)
      (λ weak. (
        refl,
        sym h,
        inl (record {
          unacceptable = λ ok. not_weakening domains weak ok.harmless;
          no_value = refl;
          not_accepted = refl;
        }),
      ))
      (λ safe.
        if_cases (IsAdvice name value domains)
          (not (is_in_range (range_of setting).0 (range_of setting).1 value))
          (λ far. (
            refl,
            sym h,
            inl (record {
              unacceptable =
                  λ ok. far_from setting value far ok (some-injective _ _ (sym ok.listed ∙ h));
              no_value = refl;
              not_accepted = refl;
            }),
          ))
          (λ near.
            let (n, e, low, high) =
              amount_of (range_of setting).0 (range_of setting).1 value (not-false _ near) in
            (
              refl,
              sym h,
              inr (record {
                acceptable = record {
                  setting = setting;
                  listed = h;
                  amount = n;
                  is_amount = e;
                  above = low;
                  below = high;
                  harmless = harmless_of domains safe;
                };
                carried = refl;
                was_accepted = refl;
              }),
            )))

-- Every advice asks for a human approval and names the whitelisted setting of the parameter's name, or
-- none where no setting has that name. It is accepted and carries the proposed value exactly where the
-- parameter is whitelisted, the value is within that setting's range and no protected domain is
-- weakened; otherwise it is not accepted and carries no value.
pub recommend_setting-IsAdvice :
    (name : String) (value : ℤ) (domains : List ProtectedConfigurationDomain)
    → IsAdvice name value domains (recommend_setting name value domains)
unfolding recommend_setting
recommend_setting-IsAdvice name value domains = advise-IsAdvice name value domains _ refl
