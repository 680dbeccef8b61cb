-- ===== src/Compress/Config.antt =====
-- `CodecConfig` of src/codec/mod.rs and the one that the client makes of its settings,
-- `codec_config` of src/client.rs. Reading the dictionary's file is a parameter; the shared table is
-- the one of rstun.Codec.
use rstun.Base.{ℕ, ◌*◌, Bool, true, false, Option, none, some, List, [], ◌∷◌}
use rstun.Net.{Text}
use rstun.Config.Create.{ClientConfig}

-- `global_stats` is whether an aggregator is attached.
pub record CodecConfig : Type 0 where
  pub enabled : Bool
  pub http_aware : Bool
  pub level : ℕ
  pub window_log : ℕ
  pub pair_ttl_secs : ℕ
  pub flush_interval_ms : ℕ
  pub dict : Option (List ℕ)
  pub global_stats : Bool

-- `CodecConfig::default`.
unfoldable pub default : CodecConfig
default = record {
  enabled = false;
  http_aware = false;
  level = 9;
  window_log = 24;
  pair_ttl_secs = 5 * 3600;
  flush_interval_ms = 150;
  dict = none;
  global_stats = false;
}

-- `CodecConfig::new`.
unfoldable pub new : Bool → Bool → ℕ → ℕ → ℕ → ℕ → CodecConfig
new enabled http_aware level window_log pair_ttl_secs flush_interval_ms = record {
  enabled = enabled;
  http_aware = http_aware;
  level = level;
  window_log = window_log;
  pair_ttl_secs = pair_ttl_secs;
  flush_interval_ms = flush_interval_ms;
  dict = none;
  global_stats = false;
}

-- An empty dictionary is none.
unfoldable pub with_dictionary : List ℕ → CodecConfig → CodecConfig
with_dictionary [] c = c
with_dictionary (b ∷ dict) c = record c { dict = some (b ∷ dict) }

unfoldable pub with_global_stats : CodecConfig → CodecConfig
with_global_stats c = record c { global_stats = true }

-- A file that cannot be read is passed over.
with_file : Option (List ℕ) → CodecConfig → CodecConfig
with_file none c = c
with_file (some dict) c = with_dictionary dict c

with_dict_path : (read_file : Text → Option (List ℕ)) → Text → CodecConfig → CodecConfig
unfolding with_file
with_dict_path read_file [] c = c
with_dict_path read_file (x ∷ path) c = with_file (read_file (x ∷ path)) c

unfoldable pub codec_config : (read_file : Text → Option (List ℕ)) → ClientConfig → CodecConfig
unfolding with_dict_path
codec_config read_file config = with_global_stats (
    with_dict_path read_file config.zstd_dict (
      new config.zstd config.http config.zstd_level config.zstd_window_log config.zstd_pair_ttl_secs
        config.zstd_flush_interval_ms))
