-- ===== src/Tests/Records.antt =====
-- Records for the runs.
use bifro_ssh.Common.{true, false, none, [], codes}
use bifro_ssh.Models.Saved.{Server}

abbrev pub blank_server : Server
blank_server = record {
  id = [];
  name = codes "box";
  host = codes "h";
  port = 22;
  identity_id = none;
  username = none;
  encrypted_password = none;
  key_id = none;
  theme = none;
  os = [];
  connection_timeout = none;
  auth_kind = none;
  proxy_jump = none;
  proxy_command = none;
  forward_agent = false;
  forward_x11 = false;
  log_sessions = false;
  group = none;
  run_on_connect = none;
  hide_run_on_connect = true;
  notes = none;
  term = none;
  env = none;
  monitor = none;
  tags = [];
}
