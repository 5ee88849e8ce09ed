-- ===== src/Error.antt =====
-- garwarp/src/error.rs: the errors of the portal, and the code and reason that a client is sent.
use garwarp.Base.{ℕ, Text, codes}
use garwarp.Request.Types.{RequestError, already_exists, not_found, owner_mismatch}

pub data PortalResponseCode : Type 0 where
  success cancelled failed : PortalResponseCode

-- `code as u32`.
unfoldable pub code_value : PortalResponseCode → ℕ
code_value success = 0
code_value cancelled = 1
code_value failed = 2

pub data PortalError : Type 0 where
  cancelled_by_user invalid_request_payload unauthorized_client : PortalError
  invalid_parent_window ownership_mismatch request_not_found : PortalError
  request_already_exists request_timeout invalid_transition internal_failure : PortalError

pub record ErrorMapping : Type 0 where
  pub code : PortalResponseCode
  pub reason : Text

unfoldable pub map_portal_error : PortalError → ErrorMapping
map_portal_error cancelled_by_user = record { code = cancelled; reason = codes "cancelled" }
map_portal_error invalid_request_payload = record {
  code = failed;
  reason = codes "invalid_request";
}
map_portal_error unauthorized_client = record {
  code = failed;
  reason = codes "unauthorized_client";
}
map_portal_error invalid_parent_window = record {
  code = failed;
  reason = codes "invalid_parent_window";
}
map_portal_error ownership_mismatch = record { code = failed; reason = codes "ownership_mismatch" }
map_portal_error request_not_found = record { code = failed; reason = codes "request_not_found" }
map_portal_error request_already_exists = record {
  code = failed;
  reason = codes "request_conflict";
}
map_portal_error request_timeout = record { code = failed; reason = codes "request_timeout" }
map_portal_error invalid_transition = record { code = failed; reason = codes "invalid_transition" }
map_portal_error internal_failure = record { code = failed; reason = codes "internal_error" }

unfoldable pub map_request_error : RequestError → ErrorMapping
map_request_error (already_exists id) = map_portal_error request_already_exists
map_request_error (not_found id) = map_portal_error request_not_found
map_request_error (owner_mismatch id) = map_portal_error ownership_mismatch
map_request_error (RequestError.invalid_transition id from target) =
    map_portal_error invalid_transition
