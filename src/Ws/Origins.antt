-- ===== src/Ws/Origins.antt =====
-- `AcceptOptions` of internal/ws/ws.go. `url.Parse` is a parameter: the host of the URL that it
-- returns, `none` for an error.
use rps_backend.Prelude.{
  Bool, Bool-cases, List, Option, [], ap, append-nil, append_assoc, arith, false, if◌then◌else◌,
  inl, inr, map, nat_eq, none, not, refl, some, sym, true, ◌++◌, ◌==◌, ◌||◌, ◌∙◌, ◌∷◌, ◌≡◌,
}
use rps_backend.Store.Defs.{Text, text_eq}

pub record Accept : Type 0 where
  pub insecure_skip_verify : Bool
  pub origin_patterns : List Text

abbrev pub any_origin : Text
any_origin = b'*' ∷ []

abbrev pub has_star : List Text → Bool
has_star [] = false
has_star (o ∷ os) = o == any_origin || has_star os

module _ (parse_host : Text → Option Text) where
  -- The host of an origin, if it has one.
  abbrev pub host_or : Text → Option Text → Text
  host_or o none = o
  host_or o (some name) = if not (name == []) then name else o

  abbrev pub pattern_of : Text → Text
  pattern_of o = host_or o (parse_host o)

  unfoldable pub accept_from : Accept → List Text → Accept
  accept_from opts [] = opts
  accept_from opts (o ∷ os) =
      let rest =
        accept_from (record opts { origin_patterns = opts.origin_patterns ++ pattern_of o ∷ [] })
          os in
      if o == any_origin then record { insecure_skip_verify = true; origin_patterns = [] } else rest

  unfoldable pub accept_options : List Text → Accept
  accept_options origins =
      accept_from (record { insecure_skip_verify = false; origin_patterns = [] }) origins

  accept_from_lem :
      (os : List Text) (opts : Accept)
      → accept_from opts os ≡ (
          if has_star os
          then record { insecure_skip_verify = true; origin_patterns = [] }
          else record opts { origin_patterns = opts.origin_patterns ++ map pattern_of os })
  unfolding accept_from
  accept_from_lem [] opts =
      ap (λ (ps : List Text). record opts { origin_patterns = ps })
        (sym (append-nil opts.origin_patterns))
  accept_from_lem (o ∷ os) opts = elim (Bool-cases (o == any_origin)) [
    | inl star ↦ rw star refl
    | inr plain_origin ↦ rw plain_origin (
        accept_from_lem os
          (record opts { origin_patterns = opts.origin_patterns ++ pattern_of o ∷ [] })
        ∙ ap
            (λ (ps : List Text).
              if has_star os
              then record { insecure_skip_verify = true; origin_patterns = [] }
              else record opts { origin_patterns = ps })
            (append_assoc opts.origin_patterns (pattern_of o ∷ []) (map pattern_of os)))
  ]

  -- The check of the origin is off exactly when "*" is among the origins; otherwise each origin
  -- gives one pattern, its host if it is a URL with a host and itself if not, in their order.
  pub accept_options_lem :
      (origins : List Text)
      → ((accept_options origins).insecure_skip_verify ≡ has_star origins)
        × (has_star origins ≡ false
            → (accept_options origins).origin_patterns ≡ map pattern_of origins)
  unfolding accept_options
  accept_options_lem origins =
      let e =
        accept_from_lem origins (record { insecure_skip_verify = false; origin_patterns = [] }) in
      (
        ap (λ (a : Accept). a.insecure_skip_verify) e ∙ ground arith,
        λ none_star. ap (λ (a : Accept). a.origin_patterns) e ∙ rw none_star refl,
      )
