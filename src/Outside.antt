-- ===== src/Outside.antt =====
-- What the code outside the repository answers while one request is served: the random source, the
-- network, the certificate manager, the key generator and the file system. The model takes any such
-- answers.
use boringproxy.Prelude.{ℕ, String, Bool, Option}
use boringproxy.Prelude.Json.{Json}
use boringproxy.Prelude.Result.{Result}

pub record Outside : Type 0 where
  -- the i-th call of rand.Int(rand.Reader, max), for each bound
  pub random : ℕ → ℕ → Result ℕ
  -- net.Listen("tcp", "127.0.0.1:0") and the address of its listener
  pub listen : Result String
  -- certmagic's ManageSync of a domain: whether its error is nil
  pub manage_sync : String → Bool
  -- rsa.GenerateKey; a key is an opaque text
  pub generate_key : Result String
  -- pem.Encode of the key in PKCS #1 form
  pub encode_pem : String → Result String
  -- ssh.NewPublicKey and ssh.MarshalAuthorizedKey
  pub new_public_key : String → Result String
  pub marshal_authorized_key : String → String
  -- md5.Sum of a JSON text, printed in hexadecimal
  pub digest : Json → String
  -- the calls on the file authorized_keys: the error, if it is not nil
  pub open_file : Option String
  pub read_file : Option String
  pub truncate_file : Option String
  pub seek_file : Option String
  -- writing a text in place of the file: what the file holds then, and the outcome
  pub write_file : String → String × Option String
