-- ===== src/Api/Bounds.antt =====
-- What the queries that are read are bounded by.
use onyx_ifem.Prelude.{
  ℕ, ◌≡◌, subst, not, ◌||◌, String, [], ◌∷◌, ltb, ◌≤◌, arith, Option-cases, inl, inr,
}
use onyx_ifem.Json.{codes}
use onyx_ifem.Contracts.Errors.{ok, >>=-eq-ok, throw_if-eq-ok, ok-injective, or_throw}
use onyx_ifem.Api.Query.{
  Base64Url, Parameters, CollectionQuery, HistoryQuery, bounded_integer, optional_parameter,
  is_canonical, number_from, check_uuid, required_uuid, assert_only_parameters, after_of,
  read_collection_query, read_history_query, max_safe_integer,
}

bounded_integer-bounds :
    (params : Parameters) (name : String) (fallback minimum maximum n : ℕ)
    → minimum ≤ fallback
    → fallback ≤ maximum
    → bounded_integer params name fallback minimum maximum ≡ ok n
    → (minimum ≤ n) × (n ≤ maximum)
unfolding bounded_integer
bounded_integer-bounds params name fallback minimum maximum n low high h =
    elim (Option-cases (optional_parameter name params)) [
      | inl missing ↦
          let same : fallback ≡ n = ok-injective (rw (missing, bounded_integer) at h) in
          (omega (arith, low, same), omega (arith, high, same))
      | inr (raw, there) ↦
          let (_, h1) =
            throw_if-eq-ok (not (is_canonical (codes raw))) _ _
              (rw (there, bounded_integer) at h) in
          let (inside, h2) =
            throw_if-eq-ok
              (ltb (number_from 0 (codes raw)) minimum || ltb maximum (number_from 0 (codes raw))) _
              _ h1 in
          let same : number_from 0 (codes raw) ≡ n = ok-injective h2 in ground (arith, inside, same)
    ]

-- What the application may rely on in a query of a collection, and in one of a history.
pub data IsCollectionQuery : CollectionQuery → Type 0 where
  valid_collection :
      {query : CollectionQuery}
      → check_uuid query.organization_id "organization_id" ≡ ok tt
      → 1 ≤ query.limit
      → query.limit ≤ 1000
      → IsCollectionQuery query

pub data IsHistoryQuery : HistoryQuery → Type 0 where
  valid_history :
      {query : HistoryQuery}
      → check_uuid query.organization_id "organization_id" ≡ ok tt
      → query.after_version ≤ max_safe_integer
      → 1 ≤ query.limit
      → query.limit ≤ 1000
      → IsHistoryQuery query

required_uuid-valid :
    (params : Parameters) (name value : String)
    → required_uuid params name ≡ ok value
    → check_uuid value name ≡ ok tt
unfolding required_uuid
required_uuid-valid params name value h =
    let (found, _, h1) = >>=-eq-ok (or_throw (optional_parameter name params) _) _ h in
    let (_, valid, h2) = >>=-eq-ok (check_uuid found name) _ h1 in
    subst (λ x. check_uuid x name ≡ ok tt) (ok-injective h2) valid

read_collection_query-IsCollectionQuery :
    (base64url : Base64Url) (params : Parameters) (query : CollectionQuery)
    → read_collection_query base64url params ≡ ok query
    → IsCollectionQuery query
unfolding read_collection_query
read_collection_query-IsCollectionQuery base64url params query h =
    let (_, _, h1) =
      >>=-eq-ok (assert_only_parameters params ("organization_id" ∷ "cursor" ∷ "limit" ∷ [])) _ h in
    let (org, valid, h2) = >>=-eq-ok (required_uuid params "organization_id") _ h1 in
    let (_, _, h3) = >>=-eq-ok (after_of base64url (optional_parameter "cursor" params)) _ h2 in
    let (n, limit, h4) = >>=-eq-ok (bounded_integer params "limit" 100 1 1000) _ h3 in
    let (low, high) =
      bounded_integer-bounds params "limit" 100 1 1000 n (omega arith) (omega arith) limit in
    subst IsCollectionQuery (ok-injective h4)
      (valid_collection (required_uuid-valid params "organization_id" org valid) low high)

read_history_query-IsHistoryQuery :
    (params : Parameters) (object_id : String) (query : HistoryQuery)
    → read_history_query params object_id ≡ ok query
    → IsHistoryQuery query
unfolding read_history_query
read_history_query-IsHistoryQuery params object_id query h =
    let (_, _, h1) =
      >>=-eq-ok (assert_only_parameters params ("organization_id" ∷ "after_version" ∷ "limit" ∷ []))
        _ h in
    let (_, _, h2) = >>=-eq-ok (check_uuid object_id "id") _ h1 in
    let (org, valid, h3) = >>=-eq-ok (required_uuid params "organization_id") _ h2 in
    let (v, version, h4) =
      >>=-eq-ok (bounded_integer params "after_version" 0 0 max_safe_integer) _ h3 in
    let (n, limit, h5) = >>=-eq-ok (bounded_integer params "limit" 100 1 1000) _ h4 in
    let (_, top) =
      bounded_integer-bounds params "after_version" 0 0 max_safe_integer v (omega arith)
        (omega arith) version in
    let (low, high) =
      bounded_integer-bounds params "limit" 100 1 1000 n (omega arith) (omega arith) limit in
    subst IsHistoryQuery (ok-injective h5)
      (valid_history (required_uuid-valid params "organization_id" org valid) top low high)

-- A query of a collection or of a history that is read from a request has an organization id that is a UUID and a
-- limit from 1 through 1000, and one of a history starts after a version that is a safe integer.
pub read_query-bounds :
    (base64url : Base64Url) (params : Parameters)
    → ((query : CollectionQuery)
        → read_collection_query base64url params ≡ ok query
        → IsCollectionQuery query)
      × ((object_id : String) (query : HistoryQuery)
          → read_history_query params object_id ≡ ok query
          → IsHistoryQuery query)
read_query-bounds base64url params = (
  read_collection_query-IsCollectionQuery base64url params,
  read_history_query-IsHistoryQuery params,
)
