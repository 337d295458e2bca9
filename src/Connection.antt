-- ===== src/Connection.antt =====
-- src/Common/remoteConnection.h and remoteConnection.cpp. `E` is Boost's `udp::endpoint` and `T`
-- its `time_point`; `now` is what `system_clock::now()` returned.
use cpsc.Text.{Bytes}

pub record RemoteConnection (E T : Type 0) : Type 0 where
  pub identifier : Bytes
  pub endpoint : E
  pub time_of_last_activity : T

-- The constructor.
abbrev pub remote_connection : {E T : Type 0} → Bytes → E → T → RemoteConnection E T
remote_connection identifier endpoint now = record {
  identifier = identifier;
  endpoint = endpoint;
  time_of_last_activity = now;
}

abbrev pub refresh_time_of_last_activity :
    {E T : Type 0} → T → RemoteConnection E T → RemoteConnection E T
refresh_time_of_last_activity now c = record c { time_of_last_activity = now }

-- What `send_to` puts on the network.
pub record Datagram (E : Type 0) : Type 0 where
  pub to : E
  pub bytes : Bytes

-- How a call of `receive_from` ends: with a datagram and its sender, or with an error.
pub data Event (E : Type 0) : Type 0 where
  datagram : E → Bytes → Event E
  failure : Event E
