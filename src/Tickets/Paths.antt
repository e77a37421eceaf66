-- ===== src/Tickets/Paths.antt =====
-- The paths of the WebSocket routes and the roles that they need
-- (backend/internal/server/wsticket.go). A path is read as its characters' codes.
use cooker.Prelude.{
  ℕ, String, Bool, true, false, ◌&&◌, ◌||◌, not, List, [], ◌∷◌, ◌==◌, ◌=ₛ◌, if◌then◌else◌, has,
}
use Prim.Native.Char.{code}

unfoldable pub codes : String → List ℕ
codes String.[] = []
codes (String.◌∷◌ c s) = code c ∷ codes s

abbrev slash : ℕ
slash = 47

abbrev colon : ℕ
colon = 58

abbrev question_mark : ℕ
question_mark = 63

-- What stands before the first question mark.
unfoldable pub strip_query : String → String
strip_query String.[] = ""
strip_query (String.◌∷◌ c s) =
    let rest = strip_query s in if code c == question_mark then "" else String.◌∷◌ c rest

-- `strings.HasPrefix`.
unfoldable pub has_prefix : (text prefix : List ℕ) → Bool
has_prefix text [] = true
has_prefix [] (p ∷ ps) = false
has_prefix (t ∷ ts) (p ∷ ps) = (t == p) && has_prefix ts ps

unfoldable pub same_codes : List ℕ → List ℕ → Bool
same_codes [] [] = true
same_codes [] (b ∷ bs) = false
same_codes (a ∷ more) [] = false
same_codes (a ∷ more) (b ∷ bs) = (a == b) && same_codes more bs

-- `strings.Trim` of slashes: at the front, and at the end.
unfoldable pub trim_front : List ℕ → List ℕ
trim_front [] = []
trim_front (b ∷ bs) = let rest = trim_front bs in if b == slash then rest else b ∷ bs

abbrev before_end : ℕ → List ℕ → List ℕ
before_end b [] = if b == slash then [] else b ∷ []
before_end b (c ∷ cs) = b ∷ c ∷ cs

unfoldable pub trim_end : List ℕ → List ℕ
trim_end [] = []
trim_end (b ∷ bs) = before_end b (trim_end bs)

abbrev onto_first : ℕ → List (List ℕ) → List (List ℕ)
onto_first b [] = (b ∷ []) ∷ []
onto_first b (s ∷ ss) = (b ∷ s) ∷ ss

-- `strings.Split` at slashes.
unfoldable pub split_slash : List ℕ → List (List ℕ)
split_slash [] = [] ∷ []
split_slash (b ∷ bs) =
    let rest = split_slash bs in if b == slash then [] ∷ rest else onto_first b rest

abbrev pub segments : String → List (List ℕ)
segments path = split_slash (trim_end (trim_front (codes path)))

abbrev is_empty : List ℕ → Bool
is_empty [] = true
is_empty (b ∷ bs) = false

-- A segment of a pattern that begins with a colon stands for any segment that is not empty.
abbrev pub segment_ok : (pattern segment : List ℕ) → Bool
segment_ok pattern segment =
    if has_prefix pattern (colon ∷ []) then not (is_empty segment) else same_codes pattern segment

unfoldable pub segments_ok : (pattern segments : List (List ℕ)) → Bool
segments_ok [] [] = true
segments_ok [] (s ∷ ss) = false
segments_ok (p ∷ ps) [] = false
segments_ok (p ∷ ps) (s ∷ ss) = segment_ok p s && segments_ok ps ss

-- `validWSPaths`.
abbrev pub valid_ws_paths : List String
valid_ws_paths =
    "/ws/pipeline-run/:runId" ∷ "/ws/app-run/:runId" ∷ "/ws/docker/build/:buildId"
    ∷ "/ws/runs/:runId/stages/:stageId/logs" ∷ "/ws/runtime/:appId/:serviceId/logs"
    ∷ "/ws/kubernetes/watch" ∷ []

unfoldable pub match_any : List String → List (List ℕ) → Bool
match_any [] segs = false
match_any (p ∷ ps) segs = segments_ok (segments p) segs || match_any ps segs

-- `matchWSPath`.
unfoldable pub match_ws_path : String → Bool
match_ws_path path = match_any valid_ws_paths (segments path)

-- `wsWriteRoles`.
abbrev pub ws_write_roles : List String
ws_write_roles = "operator" ∷ "admin" ∷ []

-- `routeRoleRequirement`.
unfoldable pub route_role_requirement : String → List String
route_role_requirement path =
    if path =ₛ "/ws/kubernetes/watch"
    then ws_write_roles
    else if has_prefix (codes path) (codes "/ws/runtime/")
    then ws_write_roles
    else []

-- The test of `hasAnyRole`.
unfoldable pub has_any_role : (required roles : List String) → Bool
has_any_role [] roles = false
has_any_role (r ∷ rs) roles = has r roles || has_any_role rs roles

abbrev pub meets : (required roles : List String) → Bool
meets [] roles = true
meets (r ∷ rs) roles = has_any_role (r ∷ rs) roles

-- `routeRoleAllowed`.
unfoldable pub route_role_allowed : String → List String → Bool
route_role_allowed path roles = meets (route_role_requirement path) roles
