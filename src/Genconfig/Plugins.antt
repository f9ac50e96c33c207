-- ===== src/Genconfig/Plugins.antt =====
-- The plugins of a service node: a part of genNodeConfig of genconfig/genconfig.go.
use opt.Base.{List, [], ◌∷◌, ◌++◌, Bytes, if◌then◌else◌, String}
use opt.Base.Texts.{bytes_of}
use opt.Genconfig.Types.{Plugin, Katzenpost}

module _ (s : Katzenpost) (id : Bytes) where
  -- s.baseDir + "/" + cfg.Server.Identifier
  abbrev node_dir : Bytes
  node_dir = s.base_dir ++ (bytes_of "/" ++ id)

  abbrev command : String → Bytes
  command name = s.bin_prefix ++ (bytes_of name ++ s.bin_suffix)

  unfoldable pub spool_plugin : Plugin
  spool_plugin = record {
    capability = bytes_of "spool";
    endpoint = bytes_of "+spool";
    command = command "memspool";
    max_concurrency = 1;
    config =
        (bytes_of "data_store", node_dir ++ bytes_of "/memspool.storage")
        ∷ (bytes_of "log_dir", node_dir)
        ∷ [];
  }

  unfoldable pub pigeonhole_plugin : Plugin
  pigeonhole_plugin = record {
    capability = bytes_of "pigeonhole";
    endpoint = bytes_of "+pigeonhole";
    command = command "pigeonhole";
    max_concurrency = 1;
    config =
        (bytes_of "db", node_dir ++ bytes_of "/map.storage") ∷ (bytes_of "log_dir", node_dir) ∷ [];
  }

  unfoldable pub panda_plugin : Plugin
  panda_plugin = record {
    capability = bytes_of "panda";
    endpoint = bytes_of "+panda";
    command = command "panda_server";
    max_concurrency = 1;
    config =
        (bytes_of "fileStore", node_dir ++ bytes_of "/panda.storage")
        ∷ (bytes_of "log_dir", node_dir)
        ∷ (bytes_of "log_level", s.log_level)
        ∷ [];
  }

  unfoldable pub proxy_plugin : Plugin
  proxy_plugin = record {
    capability = bytes_of "http";
    endpoint = bytes_of "+http";
    command = command "proxy_server";
    max_concurrency = 1;
    config =
        (bytes_of "host", bytes_of "localhost:4242")
        ∷ (bytes_of "log_dir", node_dir)
        ∷ (bytes_of "log_level", bytes_of "DEBUG")
        ∷ [];
  }

  unfoldable pub http_proxy_plugin : Plugin
  http_proxy_plugin = record {
    capability = bytes_of "http_proxy";
    endpoint = bytes_of "http_proxy";
    command = command "http_proxy";
    max_concurrency = 1;
    config =
        (bytes_of "config", node_dir ++ bytes_of "/http_proxy_config.toml")
        ∷ (bytes_of "log_dir", node_dir)
        ∷ [];
  }

  -- The plugins of a service node: all five of the first one, the spool of any other.
  unfoldable pub plugins_of : List Plugin
  unfolding spool_plugin pigeonhole_plugin panda_plugin proxy_plugin http_proxy_plugin
  plugins_of =
      if s.has_panda
      then spool_plugin ∷ []
      else spool_plugin
        ∷ pigeonhole_plugin
        ∷ panda_plugin
        ∷ ((if s.has_proxy then [] else proxy_plugin ∷ []) ++ (http_proxy_plugin ∷ []))
