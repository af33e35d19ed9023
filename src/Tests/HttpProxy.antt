-- ===== src/Tests/HttpProxy.antt =====
-- The proxied requests: the theorems at concrete inputs.
use boringproxy.Prelude.{◌≡◌, refl, String, true, not, none, some, [], ◌∷◌, ◌&&◌, ltb}
use boringproxy.Prelude.Int.{pos, itoa}
use boringproxy.Prelude.GoMap.{lookup, keep_if}
use boringproxy.Prelude.Result.{ok}
use boringproxy.Http.{plain, sent_status}
use boringproxy.Utils.{string_in_array}
use boringproxy.Database.Types.{Tunnel}
use boringproxy.HttpProxy.{
  Downstream, Upstream, Response, Network, connection_headers, is_authorized, upstream_headers,
  answer, proxy_request,
}
use boringproxy.HttpProxy.Forwarding.{MayPass, IsForwarded, proxy_request-IsForwarded}
use boringproxy.HttpProxy.Answers.{lookup-answer}
use boringproxy.Examples.{site}

abbrev locked : Tunnel
locked = record site { auth_username = "me"; auth_password = "secret" }

abbrev response : Response
response = record {
  status_code = 200;
  headers = ("Connection", "close" ∷ []) ∷ ("Server", "x" ∷ []) ∷ [];
  body = plain "hello";
}

abbrev network : Network
network = record {
  new_request = λ method url. none;
  split_host_port = λ addr. ok "198.51.100.7";
  send = λ sent. ok response;
}

abbrev downstream : Downstream
downstream = record {
  method = "GET";
  host = "a.example.com";
  request_uri = "/x";
  headers = ("X-Forwarded-For", "10.0.0.1" ∷ []) ∷ [];
  body = "";
  content_length = pos 0;
  has_tls = true;
  proto_major = 2;
  remote_addr = "198.51.100.7:1234";
  basic_auth = some ("me", "secret");
}

abbrev passed_on : Upstream
passed_on = record {
  method = "GET";
  url = "http://localhost:5001/x";
  host = "a.example.com";
  headers = upstream_headers true downstream "198.51.100.7";
  body = "";
  content_length = pos 0;
}

passes : (proxy_request network locked "localhost" (pos 5001) true downstream).0 ≡ some passed_on
unfolding proxy_request is_authorized itoa
passes = refl

proxy_request-IsForwarded_example :
    MayPass locked downstream
    × (remote_host : String) × (network.split_host_port downstream.remote_addr ≡ ok remote_host)
    × IsForwarded locked "localhost" (pos 5001) downstream remote_host passed_on
proxy_request-IsForwarded_example =
    proxy_request-IsForwarded network locked "localhost" (pos 5001) true downstream passed_on passes

lookup-answer_example :
    (lookup "Connection" (answer 2 response).headers
      ≡ keep_if
          (λ v. not (ltb 1 2 && string_in_array "Connection" connection_headers))
          (lookup "Connection" response.headers))
    × (sent_status (answer 2 response) ≡ response.status_code)
lookup-answer_example = lookup-answer 2 response "Connection"
