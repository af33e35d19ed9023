-- ===== src/Database/Types.antt =====
-- The types of database.go. `clients` is `none` where the Go map is nil, since a write to it panics.
use boringproxy.Prelude.{String, Bool, Option, none, false}
use boringproxy.Prelude.Int.{ℤ, pos}
use boringproxy.Prelude.GoMap.{GoMap}

pub record TokenData : Type 0 where
  pub owner : String
  pub client : String

pub record DbClient : Type 0 where

pub record User : Type 0 where
  pub is_admin : Bool
  pub clients : Option (GoMap DbClient)

pub record Tunnel : Type 0 where
  pub domain : String
  pub server_address : String
  pub server_port : ℤ
  pub server_public_key : String
  pub username : String
  pub tunnel_port : ℤ
  pub tunnel_private_key : String
  pub client_address : String
  pub client_port : ℤ
  pub allow_external_tcp : Bool
  pub tls_termination : String
  pub owner : String
  pub client_name : String
  pub auth_username : String
  pub auth_password : String

abbrev pub zero_token_data : TokenData
zero_token_data = record { owner = ""; client = "" }

abbrev pub zero_user : User
zero_user = record { is_admin = false; clients = none }

abbrev pub zero_tunnel : Tunnel
zero_tunnel = record {
  domain = "";
  server_address = "";
  server_port = pos 0;
  server_public_key = "";
  username = "";
  tunnel_port = pos 0;
  tunnel_private_key = "";
  client_address = "";
  client_port = pos 0;
  allow_external_tcp = false;
  tls_termination = "";
  owner = "";
  client_name = "";
  auth_username = "";
  auth_password = "";
}
