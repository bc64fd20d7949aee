-- ===== src/Response.antt =====
-- src/concurrent.cpp and include/vynkor/concurrent.hpp: action results and the envelope that answers
-- an action request.
use vynkor_sdk_cpp.Base.{Bool, true, false, []}
use vynkor_sdk_cpp.Base.Text.{Text}
use vynkor_sdk_cpp.Mac.{Bytes}
use vynkor_sdk_cpp.Protocol.{ActionResult, Envelope, action_response, status_ok, status_error}

-- `ActionResult::Ok` and `ActionResult::Err`.
abbrev pub result_ok : Bytes → ActionResult
result_ok bytes = record { is_ok = true; data_json = bytes; error = [] }

abbrev pub result_err : Text → ActionResult
result_err message = record { is_ok = false; data_json = []; error = message }

respond : Bool → Text → ActionResult → Envelope
respond true action_id result =
    action_response (record {
      action_id = action_id;
      status = status_ok;
      data_json = result.data_json;
      error = [];
    })
respond false action_id result =
    action_response (record {
      action_id = action_id;
      status = status_error;
      data_json = [];
      error = result.error;
    })

unfoldable pub response_envelope : Text → ActionResult → Envelope
unfolding respond
response_envelope action_id result = respond result.is_ok action_id result
