-- ===== src/Api/Cors.antt =====
-- What the root handler gives to another origin, and when it leaves the tables alone.
use text.Mathlib.Text.{◌==◌ as str_beq}
use rps_backend.Api.Defs.{Chance, Library, get_health, health_response, ping}
use rps_backend.Api.Routes.{
  Answer, Header, Reply, Request, allow_headers, allow_methods, allow_origin, api_mux, cors,
  is_allowed, is_get, root, vary_origin,
}
use rps_backend.Prelude.{
  Bool, Bool-cases, List, [], false, if◌then◌else◌, inl, inr, refl, true, ◌&&◌, ◌||◌, ◌∷◌, ◌≡◌, ◌⊎◌,
}
use rps_backend.Store.Defs.{Store, Text, statement_cases}

-- Both tables are as they were.
abbrev pub Untouched : Store → Store → Type 0
Untouched s t = (t.players ≡ s.players) × (t.games ≡ s.games)

-- The headers of the list that allow an origin.
abbrev pub origins_of : List Header → List Text
origins_of [] = []
origins_of (allow_origin o ∷ hs) = o ∷ origins_of hs
origins_of (vary_origin ∷ hs) = origins_of hs
origins_of (allow_methods ∷ hs) = origins_of hs
origins_of (allow_headers ∷ hs) = origins_of hs

-- No header at all, or the origin is a good one, and the headers name it, once, and vary by it.
abbrev pub Fits : Bool → Text → List Header → Type 0
Fits good origin hs =
    (hs ≡ [])
    ⊎ ((good ≡ true)
        × ((rest : List Header) × (hs ≡ allow_origin origin ∷ vary_origin ∷ rest)
            × (origins_of rest ≡ [])))

-- What holds in both branches of a test.
if_both {ℓ κ} :
    {A : Type ℓ} (P : A → Type κ) (b : Bool) (x y : A) → P x → P y → P (if b then x else y)
if_both P true x y px py = px
if_both P false x y px py = py

module _ (lib : Library) (allowed : List Text) (has_ws : Bool) (ch : Chance) (r : Request) where
  get_health-Untouched : (s : Store) → Untouched s (get_health s).1
  unfolding get_health ping
  get_health-Untouched s =
      statement_cases (λ res. Untouched s (health_response res).1) _ s (λ fs. (refl, refl))
        λ fs. (refl, refl)

  api_mux-Untouched :
      (s : Store)
      → str_beq r.method "POST" ≡ false
      → Untouched s (api_mux lib allowed has_ws ch r s).1
  unfolding api_mux
  api_mux-Untouched s e =
      let P : Answer × Store → Type 0 = λ x. Untouched s x.1 in
      rw e (
        if_both P (str_beq r.path "/players") _ _ (refl, refl)
          (if_both P (str_beq r.path "/games") _ _ (refl, refl)
            (if_both P (is_get r.method) _ _ (get_health-Untouched s) (refl, refl))))

  -- A request whose method is not POST leaves both tables as they were.
  pub root-Untouched :
      (s : Store) → str_beq r.method "POST" ≡ false → Untouched s (root lib allowed has_ws ch r s).1
  unfolding root cors
  root-Untouched s e =
      let P : Reply × Store → Type 0 = λ x. Untouched s x.1 in
      if_both P (str_beq r.path "/players" || str_beq r.path "/games" || str_beq r.path "/healthz")
        _ _ (if_both P (str_beq r.method "OPTIONS") _ _ (refl, refl) (api_mux-Untouched s e))
        (if_both P (has_ws && str_beq r.path "/ws") _ _ (refl, refl) (refl, refl))

  -- The answer to any request has no header for another origin, or the request's origin is allowed and
  -- the headers name this origin and no other, and vary by it.
  pub root_headers :
      (s : Store)
      → Fits (is_allowed allowed r.origin) r.origin (root lib allowed has_ws ch r s).0.headers
  unfolding root cors
  root_headers s =
      let P : Bool → Reply × Store → Type 0 = λ b x. Fits b r.origin x.0.headers in
      let on_rest =
        str_beq r.path "/players" || str_beq r.path "/games" || str_beq r.path "/healthz" in
      elim (Bool-cases (is_allowed allowed r.origin)) [
        | inl good ↦ rw good (
            if_both (P true) on_rest _ _
              (if_both (P true) (str_beq r.method "OPTIONS") _ _
                (inr (refl, (allow_methods ∷ allow_headers ∷ [], refl, refl)))
                (inr (refl, ([], refl, refl))))
              (if_both (P true) (has_ws && str_beq r.path "/ws") _ _ (inl refl) (inl refl)))
        | inr bad ↦ rw bad (
            if_both (P false) on_rest _ _
              (if_both (P false) (str_beq r.method "OPTIONS") _ _ (inl refl) (inl refl))
              (if_both (P false) (has_ws && str_beq r.path "/ws") _ _ (inl refl) (inl refl)))
      ]
