-- ===== src/Fault/Laws.antt =====
-- Which gRPC status an error of the service layer gets.
use database_router.Shared.{◌≡◌, ◌↔◌, refl, true, ◌++◌, arith}
use database_router.Text.{Text, codes, contains}
use database_router.Fault.{
  GoError, message, error_text, is_not_enabled, invalid_argument, not_found, unavailable, status,
  is_bad_input, to_grpc_error,
}

-- The status carries the text of the error, and its code is Unavailable exactly for a backend that is
-- not enabled: no error of a driver, a refused connection among them, gets that code.
pub to_grpc_error_lem :
    (e : GoError)
    → ((to_grpc_error e).text ≡ error_text e)
      × (((to_grpc_error e).code ≡ unavailable) ↔ (is_not_enabled e ≡ true))
unfolding to_grpc_error
to_grpc_error_lem e = (ground arith, (λ h. ground arith, λ h. ground arith))

invalid_id_is_bad : (reason : Text) → is_bad_input (codes "invalid ID format: " ++ reason) ≡ true
unfolding is_bad_input contains
invalid_id_is_bad reason = ground arith

-- The errors of the service that name a mistake of the caller get InvalidArgument, whatever the
-- driver says of the id, and a missing key gets NotFound.
pub to_grpc_error-messages :
    (reason : Text)
    → (to_grpc_error (message (codes "invalid ID format: " ++ reason))
        ≡ status invalid_argument (codes "invalid ID format: " ++ reason))
      × (to_grpc_error (message (codes "invalid table name"))
          ≡ status invalid_argument (codes "invalid table name"))
      × (to_grpc_error (message (codes "no data to update"))
          ≡ status invalid_argument (codes "no data to update"))
      × (to_grpc_error (message (codes "limit must be between 1 and 10000"))
          ≡ status invalid_argument (codes "limit must be between 1 and 10000"))
      × (to_grpc_error (message (codes "key not found")) ≡ status not_found (codes "key not found"))
unfolding to_grpc_error contains
to_grpc_error-messages reason = (rw (invalid_id_is_bad reason) refl, refl, refl, refl, refl)
