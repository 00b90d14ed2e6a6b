-- ===== src/Api/Kinds.antt =====
-- rust/crates/spatiad-api/src/lib.rs: `parse_job_event_kinds`, the query parameter `kinds`.
pub mod Labels
use spatiad.Base.{
  ℕ, Bool, Option, none, some, List, [], ◌∷◌, ◌++◌, any, is_empty, nat_beq, ◌==◌, Result, ok, err,
  ◌>>=◌, if◌then◌else◌,
}
use spatiad.Base.Text.{Text, codes, text_eq}
use spatiad.Core.EventKind.{JobEventFilterKind, same_kind}
use spatiad.Api.Authorization.{trim}

-- A text split at a separator: the first part and the others.
abbrev onto_first : ℕ → Text × List Text → Text × List Text
onto_first c (part, parts) = (c ∷ part, parts)

unfoldable pub split_parts : ℕ → Text → Text × List Text
split_parts separator [] = ([], [])
split_parts separator (c ∷ s) =
    let rest = split_parts separator s in
    if nat_beq c separator then ([], rest.0 ∷ rest.1) else onto_first c rest

-- `str::split(c)`.
unfoldable pub split : ℕ → Text → List Text
split separator s = let parts = split_parts separator s in parts.0 ∷ parts.1

unfoldable pub kind_of_token : Text → Result JobEventFilterKind Text
kind_of_token token =
    if token == codes "job_registered"
    then ok JobEventFilterKind.job_registered
    else if token == codes "job_cancelled"
    then ok JobEventFilterKind.job_cancelled
    else if token == codes "webhook_delivery_failed"
    then ok JobEventFilterKind.webhook_delivery_failed
    else if token == codes "offer_created"
    then ok JobEventFilterKind.offer_created
    else if token == codes "offer_expired"
    then ok JobEventFilterKind.offer_expired
    else if token == codes "offer_cancelled"
    then ok JobEventFilterKind.offer_cancelled
    else if token == codes "offer_rejected"
    then ok JobEventFilterKind.offer_rejected
    else if token == codes "offer_accepted"
    then ok JobEventFilterKind.offer_accepted
    else if token == codes "match_confirmed"
    then ok JobEventFilterKind.match_confirmed
    else if token == codes "offer_status_updated"
    then ok JobEventFilterKind.offer_status_updated
    else err (codes "unsupported event kind '" ++ (token ++ codes "' in 'kinds' query parameter"))

-- `if !parsed.contains(&kind) { parsed.push(kind); }`.
abbrev push_new : List JobEventFilterKind → JobEventFilterKind → List JobEventFilterKind
push_new parsed kind = if any (same_kind kind) parsed then parsed else parsed ++ (kind ∷ [])

unfoldable pub parse_parts :
    List JobEventFilterKind → List Text → Result (List JobEventFilterKind) Text
parse_parts parsed [] = ok parsed
parse_parts parsed (part ∷ parts) =
    let skipped = parse_parts parsed parts in
    if is_empty (trim part)
    then skipped
    else (do kind ← kind_of_token (trim part); parse_parts (push_new parsed kind) parts)

abbrev nonempty : List JobEventFilterKind → Option (List JobEventFilterKind)
nonempty parsed = if is_empty parsed then none else some parsed

unfoldable pub parse_job_event_kinds : Option Text → Result (Option (List JobEventFilterKind)) Text
parse_job_event_kinds none = ok none
parse_job_event_kinds (some raw) = do parsed ← parse_parts [] (split b',' raw); ok (nonempty parsed)
