-- ===== src/Prelude/Http.antt =====
-- The servers that cpp-httplib runs: requests, responses with JSON bodies, and the table of routes. The
-- library's match of a path against a pattern is a parameter. It tries the routes of a method in the
-- order in which they were added; without a match it answers 404, and 500 if a handler throws.
use Prim.Native.Nat.{ℕ}
use Prim.Native.String.{String}
use mathlib.Core.Bool.{Bool, true, false}
use mathlib.Core.Option.{Option, none, some}
use mathlib.Core.List.{List, [], ◌∷◌}
use mathlib.Core.Logic.{inl, inr}
use architecture_course.Prelude.Tests.{Option-cases}
use mathlib.Core.Path.{◌≡◌, refl}
use architecture_course.Prelude.Lists.{All}
use architecture_course.Prelude.Results.{Reply, replied, failed, thrown}
use architecture_course.Prelude.Json.{Json, boolean, text, object, braced}

-- The library answers HEAD by the routes of GET; `other_method` has no routes.
pub data Method : Type 0 where
  get post put delete options other_method : Method

abbrev pub same_method : Method → Method → Bool
same_method get get = true
same_method post post = true
same_method put put = true
same_method delete delete = true
same_method options options = true
same_method _ _ = false

-- `param` and `header` are the empty text for a name that is missing, `has_param` tells which.
pub record HttpRequest : Type 0 where
  pub method : Method
  pub path : String
  pub param : String → String
  pub has_param : String → Bool
  pub header : String → String
  pub body : String

pub record HttpResponse {ℓ} (W : Type ℓ) : Type ℓ where
  pub status : ℕ
  pub headers : List (String × String)
  pub content : Option (Json W)

-- A response as `Response` starts, and one with a body.
module _ {ℓ} {W : Type ℓ} where
  abbrev pub plain : ℕ → HttpResponse W
  plain status = record { status = status; headers = []; content = none }

  abbrev pub with_json : ℕ → Json W → HttpResponse W
  with_json status content = record { status = status; headers = []; content = some content }

  -- `{{"error", true}, {"message", message}}`
  abbrev pub error_json : String → Json W
  error_json message = object (braced (("error", boolean true) ∷ ("message", text message) ∷ []))

  -- The response of a handler; a 204 has no body.
  abbrev pub answered {κ} : {A : Type κ} → (A → Option (Json W)) → Reply A → HttpResponse W
  answered content (replied status a) = record {
    status = status;
    headers = [];
    content = content a;
  }
  answered content (failed status message) = with_json status (error_json message)
  answered content thrown = plain 500

-- A route's handler gets the request and the texts that the pattern captured, `req.matches` from 1 on.
-- `R` is what it does, a response where it does not wait.
pub record Route {ℓ κ} (D : Type ℓ) (R : Type κ) : Type (ℓ ⊔ κ) where
  pub method : Method
  pub pattern : String
  pub handler : HttpRequest → List String → D → R × D

abbrev pub route {ℓ κ} :
    {D : Type ℓ} {R : Type κ}
    → Method
    → String
    → (HttpRequest → List String → D → R × D)
    → Route D R
route method pattern handler = record { method = method; pattern = pattern; handler = handler }

-- `req.matches[1]` and `req.matches[2]`; a text that was not captured is empty.
abbrev pub capture : ℕ → List String → String
capture n [] = ""
capture ℕ.zero (s ∷ rest) = s
capture (ℕ.suc n) (s ∷ rest) = capture n rest

abbrev pub try_route {μ} : {R : Type μ} → Option (List String) → Bool → (List String → R) → R → R
try_route none b use_it rest = rest
try_route (some captured) false use_it rest = rest
try_route (some captured) true use_it rest = use_it captured

module _ {ℓ κ} {D : Type ℓ} {R : Type κ} (matches : String → String → Option (List String))
    (not_found : R) where
  -- A request that no route takes is not found. For a method that it does not route at all the library
  -- answers 400 instead.
  unfoldable pub dispatch : List (Route D R) → HttpRequest → D → R × D
  dispatch [] req db = (not_found, db)
  dispatch (route ∷ routes) req db =
      let rest = dispatch routes req db in
      try_route (matches route.pattern req.path) (same_method route.method req.method)
        (λ captured. route.handler req captured db) rest

  try_route_relates {μ} :
      (P : R × D → R × D → Type μ) (route : Route D R) (req : HttpRequest) (db other : D)
      (o : Option (List String)) (b : Bool) (rest rest' : R × D)
      → ((captured : List String)
          → b ≡ true
          → P (route.handler req captured db) (route.handler req captured other))
      → P rest rest'
      → P
          (try_route o b (λ captured. route.handler req captured db) rest)
          (try_route o b (λ captured. route.handler req captured other) rest')
  try_route_relates P route req db other none b rest rest' h k = k
  try_route_relates P route req db other (some captured) false rest rest' h k = k
  try_route_relates P route req db other (some captured) true rest rest' h k = h captured refl

  -- What relates the outcomes of every handler in two states relates those of the table.
  pub dispatch_relates {μ} :
      (P : R × D → R × D → Type μ) (routes : List (Route D R)) (req : HttpRequest) (db other : D)
      → P (not_found, db) (not_found, other)
      → All
          (λ (route : Route D R).
            (captured : List String)
            → same_method route.method req.method ≡ true
            → P (route.handler req captured db) (route.handler req captured other))
          routes
      → P (dispatch routes req db) (dispatch routes req other)
  unfolding dispatch
  dispatch_relates P [] req db other h k = h
  dispatch_relates P (route ∷ routes) req db other h (first, others) =
      try_route_relates P route req db other (matches route.pattern req.path)
        (same_method route.method req.method) _ _ first
        (dispatch_relates P routes req db other h others)

  -- What holds of the outcome without a match and of every handler holds of the table.
  pub dispatch_keeps {μ} :
      (P : R × D → Type μ) (routes : List (Route D R)) (req : HttpRequest) (db : D)
      → P (not_found, db)
      → All
          (λ (route : Route D R).
            (captured : List String)
            → same_method route.method req.method ≡ true
            → P (route.handler req captured db))
          routes
      → P (dispatch routes req db)
  dispatch_keeps P routes req db h k = dispatch_relates (λ r r'. P r) routes req db db h k

  -- A route is taken, or passed over for its path or for its method.
  pub dispatch_takes :
      (route : Route D R) (routes : List (Route D R)) (req : HttpRequest) (captured : List String)
      (db : D)
      → matches route.pattern req.path ≡ some captured
      → same_method route.method req.method ≡ true
      → dispatch (route ∷ routes) req db ≡ route.handler req captured db
  unfolding dispatch
  dispatch_takes route routes req captured db p m = rw (dispatch, p, m) refl

  pub dispatch_skips_path :
      (route : Route D R) (routes : List (Route D R)) (req : HttpRequest) (db : D)
      → matches route.pattern req.path ≡ none
      → dispatch (route ∷ routes) req db ≡ dispatch routes req db
  unfolding dispatch
  dispatch_skips_path route routes req db p = rw (dispatch, p) refl

  pub dispatch_skips_method :
      (route : Route D R) (routes : List (Route D R)) (req : HttpRequest) (db : D)
      → same_method route.method req.method ≡ false
      → dispatch (route ∷ routes) req db ≡ dispatch routes req db
  unfolding dispatch
  dispatch_skips_method route routes req db m =
      elim (Option-cases (matches route.pattern req.path)) [
        | inl p ↦ rw (dispatch, p) refl
        | inr (captured, p) ↦ rw (dispatch, p, m) refl
      ]
