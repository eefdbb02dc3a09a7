-- ===== src/Models/Settings.antt =====
-- The settings and their defaults, in src-tauri/src/models.rs.
use bifro_ssh.Common.{ℕ, Bool, true, false, Option, none, List, [], ◌∷◌, Text, codes}

pub data AppTheme : Type 0 where
  dark light amoled system : AppTheme

pub data HostKeyPolicy : Type 0 where
  ask accept_new strict : HostKeyPolicy

pub data CursorStyle : Type 0 where
  block underline bar : CursorStyle

pub record HighlightRule : Type 0 where
  pub pattern_text : Text
  pub color : Text
  pub case_sensitive : Bool

pub record Settings : Type 0 where
  pub theme : Text
  pub font_size : ℕ
  pub font_family : Text
  pub cursor_style : CursorStyle
  pub cursor_blink : Bool
  pub app_theme : AppTheme
  pub connection_timeout_secs : ℕ
  pub show_hover_hints : Bool
  pub sftp_inactivity_timeout_secs : ℕ
  pub host_key_policy : HostKeyPolicy
  pub accent_color : Option Text
  pub keepalive_interval_secs : ℕ
  pub auto_lock_minutes : ℕ
  pub lock_on_suspend : Bool
  pub lock_on_screen_lock : Bool
  pub scrollback_lines : ℕ
  pub session_log_dir : Option Text
  pub recording_dir : Option Text
  pub check_for_updates : Bool
  pub last_update_check : ℕ
  pub auto_reconnect : Bool
  pub auto_reconnect_attempts : ℕ
  pub restore_tabs : Bool
  pub verify_transfers : Bool
  pub shortcuts : List (Text × Text)
  pub highlight_enabled : Bool
  pub highlight_rules : List HighlightRule
  pub autosuggest : Bool
  pub monitor_bar : Bool
  pub local_shell : Text
  pub inline_images : Bool
  pub keep_awake : Bool
  pub background_lock_minutes : Option ℕ
  pub volume_keys_zoom : Bool
  pub screen_orientation : Text
  pub window_frame : Text
  pub hide_in_recents : Bool

-- `HighlightRule::defaults`.
abbrev rule : Text → Text → HighlightRule
rule words color = record { pattern_text = words; color = color; case_sensitive = false }

abbrev pub default_rules : List HighlightRule
default_rules =
    rule (codes "\\b(error|errors|failed|failure|fatal)\\b") (codes "red")
    ∷ rule (codes "\\b(warn|warning|warnings)\\b") (codes "yellow")
    ∷ rule (codes "\\b(ok|success|succeeded|done)\\b") (codes "green")
    ∷ []

-- `Settings::default`.
abbrev pub default_settings : Settings
default_settings = record {
  theme = codes "bifrossh-dark";
  font_size = 14;
  font_family = codes "monospace";
  cursor_style = block;
  cursor_blink = true;
  app_theme = dark;
  connection_timeout_secs = 60;
  show_hover_hints = true;
  sftp_inactivity_timeout_secs = 300;
  host_key_policy = ask;
  accent_color = none;
  keepalive_interval_secs = 30;
  auto_lock_minutes = 0;
  lock_on_suspend = true;
  lock_on_screen_lock = true;
  scrollback_lines = 10000;
  session_log_dir = none;
  recording_dir = none;
  check_for_updates = true;
  last_update_check = 0;
  auto_reconnect = true;
  auto_reconnect_attempts = 5;
  restore_tabs = true;
  verify_transfers = false;
  shortcuts = [];
  highlight_enabled = true;
  highlight_rules = default_rules;
  autosuggest = true;
  monitor_bar = false;
  local_shell = [];
  inline_images = true;
  keep_awake = false;
  background_lock_minutes = none;
  volume_keys_zoom = true;
  screen_orientation = codes "auto";
  window_frame = codes "custom";
  hide_in_recents = true;
}
