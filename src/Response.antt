-- ===== src/Response.antt =====
-- src/common/dto/api-response.dto.ts: the form of the answers, over HTTP and over the sockets. The time of an
-- answer is an argument of the functions that build it.
use talksy.Common.{ℕ, Option, none, some, String}

pub data ResponseCode : Type 0 where
  success created updated deleted : ResponseCode
  health_ok health_degraded health_unhealthy : ResponseCode
  ai_response ai_stream_start ai_stream_chunk ai_stream_end ai_provider_unavailable : ResponseCode
  session_created session_restored session_expired : ResponseCode
  tool_executed tool_list tool_info tool_not_found : ResponseCode
  bad_request unauthorized forbidden not_found rate_limited validation_error internal_error :
      ResponseCode
  service_unavailable : ResponseCode

abbrev pub code_text : ResponseCode → String
code_text success = "MSG_SUCCESS"
code_text created = "MSG_CREATED"
code_text updated = "MSG_UPDATED"
code_text deleted = "MSG_DELETED"
code_text health_ok = "MSG_HEALTH_OK"
code_text health_degraded = "MSG_HEALTH_DEGRADED"
code_text health_unhealthy = "MSG_HEALTH_UNHEALTHY"
code_text ai_response = "MSG_AI_RESPONSE"
code_text ai_stream_start = "MSG_AI_STREAM_START"
code_text ai_stream_chunk = "MSG_AI_STREAM_CHUNK"
code_text ai_stream_end = "MSG_AI_STREAM_END"
code_text ai_provider_unavailable = "MSG_AI_PROVIDER_UNAVAILABLE"
code_text session_created = "MSG_SESSION_CREATED"
code_text session_restored = "MSG_SESSION_RESTORED"
code_text session_expired = "MSG_SESSION_EXPIRED"
code_text tool_executed = "MSG_TOOL_EXECUTED"
code_text tool_list = "MSG_TOOL_LIST"
code_text tool_info = "MSG_TOOL_INFO"
code_text tool_not_found = "MSG_TOOL_NOT_FOUND"
code_text bad_request = "MSG_BAD_REQUEST"
code_text unauthorized = "MSG_UNAUTHORIZED"
code_text forbidden = "MSG_FORBIDDEN"
code_text not_found = "MSG_NOT_FOUND"
code_text rate_limited = "MSG_RATE_LIMITED"
code_text validation_error = "MSG_VALIDATION_ERROR"
code_text internal_error = "MSG_INTERNAL_ERROR"
code_text service_unavailable = "MSG_SERVICE_UNAVAILABLE"

pub data WsStatus : Type 0 where
  succeeded failed : WsStatus

pub record WsResponse (T : Type 0) : Type 0 where
  pub content : Option T
  pub code : String
  pub status : WsStatus
  pub description : String
  pub timestamp : ℕ

module _ {T : Type 0} where
  abbrev pub ws_success : T → ResponseCode → String → ℕ → WsResponse T
  ws_success content code description now = record {
    content = some content;
    code = code_text code;
    status = succeeded;
    description = description;
    timestamp = now;
  }

  abbrev pub ws_error : ResponseCode → String → ℕ → WsResponse T
  ws_error code description now = record {
    content = none;
    code = code_text code;
    status = failed;
    description = description;
    timestamp = now;
  }
