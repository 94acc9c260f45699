-- ===== src/Tests/Config.antt =====
-- Runs of `Load` of internal/config.
use goddns.Base.{true, false, [], ◌∷◌, none, some, ◌≡◌, refl, if◌then◌else◌}
use goddns.Base.Strings.{
  bytes, str_eq, to_lower, trim_space, trim_left, trim_suffix, has_prefix, has_suffix, cut,
}
use goddns.Base.Dict
use goddns.Base.Dict.{Dict, insert}
use goddns.Base.Decimal.{show_nat}
use goddns.Base.Result.{ok}
use goddns.Config.{ProxyRule, Libraries, Config}
use goddns.Config.Load.{
  Sources, decoded, defaults, with_keys, canon_key_name, check_mode, norm_host, merge_rules,
  merge_fragments, is_credential, check_admin_creds, parse_nets, check_creds, check_ports,
  check_rule, norm_rules, check_admin, validate, load,
}

-- One network, one URL, and a hash that is the password itself.
abbrev pub lib : Libraries
lib = record {
  forms = record {
    parse_ip = λ s. if str_eq s (bytes "p") then 10 ∷ 0 ∷ 0 ∷ 1 ∷ [] else [];
    ip_string = λ ip. ip;
    split_host = λ s. none;
  };
  split_port = λ s. some (bytes "443");
  parse_cidr = λ s. some (record { number = 10 ∷ 0 ∷ 0 ∷ 0 ∷ []; mask = 255 ∷ 0 ∷ 0 ∷ 0 ∷ [] });
  parse_url = λ u. some (record {
    scheme = bytes "http";
    host = u;
    hostname = u;
    path = [];
    raw_query = [];
    fragment = [];
    has_user = false;
  });
  bcrypt_cost = λ hash. true;
  bcrypt_matches = λ hash pass. str_eq hash pass;
}

abbrev pub rule : ProxyRule
rule = record {
  upstream = bytes "up";
  upstream_verify = false;
  preserve_host = false;
  bmc_compat = false;
  allow = bytes "10/8" ∷ [];
  basic_auth = bytes "u:$2s" ∷ [];
  rate_limit = 1;
  console_ports = 5900 ∷ [];
}

-- The main file, with an admin page, and one fragment.
abbrev pub source : Sources
source = record {
  has_path = true;
  main = λ c.
      decoded
        (record c {
          cert_file = bytes "c";
          key_file = bytes "k";
          proxy_enabled = true;
          admin = record c.admin {
            enabled = true;
            host = bytes "A.";
            users = bytes "root:$2x" ∷ [];
          };
        })
        [];
  env_secret = [];
  env_acme_secret = [];
  keys_file = λ f. none;
  fragments = (bytes "h.conf", decoded ((bytes "H", rule) ∷ []) []) ∷ [];
}

abbrev pub accepted : Config
accepted = record defaults {
  cert_file = bytes "c";
  key_file = bytes "k";
  acme_tsig_name = bytes "ddns-update.";
  acme_tsig_algo = bytes "hmac-sha256";
  tsig_name = bytes "ddns-update.";
  proxy_enabled = true;
  proxy_listen = bytes ":443";
  proxy = (bytes "h", rule) ∷ [];
  admin = record {
    enabled = true;
    host = bytes "a";
    allow = [];
    basic_auth = [];
    users = bytes "root:$2x" ∷ [];
    session_ttl = 8;
    allow_nets = [];
  };
}

pub loads : load lib source ≡ ok accepted
unfolding load validate with_keys canon_key_name check_mode norm_host merge_rules merge_fragments
    is_credential check_admin_creds parse_nets check_creds check_ports check_rule norm_rules
    check_admin show_nat Dict.lookup insert str_eq to_lower trim_space trim_left trim_suffix
    has_prefix has_suffix cut
loads = refl
