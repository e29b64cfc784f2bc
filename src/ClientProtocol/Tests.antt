-- ===== src/ClientProtocol/Tests.antt =====
-- Tests and examples for the validation of client messages.
use thread_link.Prelude.{◌≡◌, refl, ◌↔◌, [], js, ◌==◌}
use thread_link.Protocol.{to_direct, register, send_message, ClientMessage}
use thread_link.ClientProtocol.Values.{
  Json, str, num, obj, end, property, field_of, to_string, text_of, object_text,
}
use thread_link.ClientProtocol.{
  ok, refused, validate_client_message, unknown_type, threw, message_of, bounded_string,
  validate_target,
}
use thread_link.ClientProtocol.Bounds.{InBounds, validate-InBounds}
use thread_link.ClientProtocol.RoundTrip.{to_json, validate-to_json_iff}

abbrev hello : ClientMessage
hello = send_message (to_direct (js "u2")) (js "hello")

abbrev hello_json : Json
hello_json = obj (
    property (js "text") (str (js "hello")) (
      property (js "type") (str (js "sendMessage")) (
        property (js "target")
          (obj
            (property (js "kind") (str (js "direct")) (property (js "peerId") (str (js "u2")) end)))
          end)))

validate_hello : validate_client_message hello_json ≡ ok hello
unfolding validate_client_message message_of bounded_string validate_target field_of ◌==◌
validate_hello = refl

validate_unknown :
    validate_client_message (obj (property (js "type") (num (js "7")) end))
    ≡ refused (js "unknown message type '7'")
unfolding validate_client_message message_of unknown_type field_of to_string ◌==◌ text_of
validate_unknown = refl

-- The object {"type": {"toString": 1}}.
validate_throws :
    validate_client_message
      (obj (property (js "type") (obj (property (js "toString") (num (js "1")) end)) end))
    ≡ threw
unfolding validate_client_message message_of unknown_type field_of to_string ◌==◌ text_of
    object_text
validate_throws = refl

validate-InBounds_example : InBounds hello
validate-InBounds_example = validate-InBounds hello_json hello validate_hello

validate-to_json_iff_example :
    (validate_client_message (to_json (register [] (js "secret"))) ≡ ok (register [] (js "secret")))
    ↔ InBounds (register [] (js "secret"))
validate-to_json_iff_example = validate-to_json_iff (register [] (js "secret"))
