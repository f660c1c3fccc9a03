-- ===== src/Api/Routes.antt =====
-- `New` and `corsMiddleware` of internal/httpapi/httpapi.go: which handler a request meets, and the
-- headers that another origin is given. The path is one that `ServeMux` does not redirect.
use Prim.Native.String.{String}
use text.Mathlib.Text.{◌==◌ as str_beq}
use rps_backend.Api.Defs.{Chance, Library, Response, get_health, post_game, post_player}
use rps_backend.Prelude.{
  Bool, List, [], false, if◌then◌else◌, nat_eq, not, ℕ, ◌&&◌, ◌++◌, ◌==◌, ◌||◌, ◌∷◌,
}
use rps_backend.Store.Defs.{Store, Text, text_eq}

pub record Request : Type 0 where
  pub method : String
  pub path : String
  pub origin : Text  -- empty if the header is absent
  pub body : Text

pub data Header : Type 0 where
  allow_origin : Text → Header
  vary_origin allow_methods allow_headers : Header

-- `status_only`: an answer of `ServeMux` itself, or one without a body.
pub data Answer : Type 0 where
  answers : Response → Answer
  status_only : (status : ℕ) → Answer
  upgrades : Answer

pub record Reply : Type 0 where
  pub headers : List Header
  pub answer : Answer

abbrev pub listed : Text → List Text → Bool
listed o [] = false
listed o (a ∷ as_) = a == o || listed o as_

abbrev pub is_allowed : List Text → Text → Bool
is_allowed allowed origin =
    not (origin == []) && (listed (b'*' ∷ []) allowed || listed origin allowed)

unfoldable pub cors : List Text → Request → (Store → Answer × Store) → Store → Reply × Store
cors allowed r next s =
    let good = is_allowed allowed r.origin in
    let given = if good then allow_origin r.origin ∷ vary_origin ∷ [] else [] in
    if str_beq r.method "OPTIONS"
    then (
      record {
        headers = given ++ (if good then allow_methods ∷ allow_headers ∷ [] else []);
        answer = status_only 204;
      },
      s,
    )
    else let (answer, t) = next s in (record { headers = given; answer = answer }, t)

abbrev pub answered : Response × Store → Answer × Store
answered (r, s) = (answers r, s)

-- A pattern "GET …" takes HEAD as well.
abbrev pub is_get : String → Bool
is_get m = str_beq m "GET" || str_beq m "HEAD"

module _ (lib : Library) (allowed : List Text) (has_ws : Bool) where
  -- `apiMux`, reached on its three paths only.
  unfoldable pub api_mux : Chance → Request → Store → Answer × Store
  api_mux ch r s =
      if str_beq r.path "/players"
      then if str_beq r.method "POST"
        then answered (post_player lib ch r.body s)
        else (status_only 405, s)
      else if str_beq r.path "/games"
      then if str_beq r.method "POST"
        then answered (post_game lib ch r.body s)
        else (status_only 405, s)
      else if is_get r.method
      then answered (get_health s)
      else (status_only 405, s)

  unfoldable pub root : Chance → Request → Store → Reply × Store
  root ch r s =
      if str_beq r.path "/players" || str_beq r.path "/games" || str_beq r.path "/healthz"
      then cors allowed r (api_mux ch r) s
      else if has_ws && str_beq r.path "/ws"
      then (
        record { headers = []; answer = if is_get r.method then upgrades else status_only 405 },
        s,
      )
      else (record { headers = []; answer = status_only 404 }, s)
