-- ===== src/TlsConfig/Tests.antt =====
-- Reloads of a small configuration.
use device_mounter.Base.{String, some, List, [], ◌∷◌, ◌≡◌, refl, string_dec}
use device_mounter.Base.Dict.{lookup}
use device_mounter.Api.{other_error, ok, err}
use device_mounter.TlsConfig.{
  loaded, missing, Disk, Library, get_config, reload_tls_profile, reload_certificate, reload,
  load_cipher_suites_and_min_version, load_certificates,
}
use device_mounter.TlsConfig.Served.{
  Change, profile, certificate, both, after_changes, last_profile, last_certificate, profile_error,
  failure_of, config_of, get_config-after_changes,
}

-- A profile is its version, with one cipher suite.
abbrev lib : Library
lib = record {
  decode_profile = λ text. loaded (record { ciphers = "A" ∷ []; min_tls_version = text });
  cipher_suites = ("A", 4865) ∷ [];
  key_pair = λ cert key. ok cert;
  parse_certs = λ text. ok (text, []);
}

abbrev disk : String → Disk
disk version = record {
  open_profile = loaded version;
  read_cert = loaded "CERT";
  read_key = loaded "KEY";
}

abbrev no_key : Disk
no_key = record {
  open_profile = missing "no file";
  read_cert = loaded "CERT";
  read_key = missing "no key";
}

abbrev history : List Change
history = profile (disk "VersionTLS13") ∷ certificate no_key ∷ both (disk "VersionTLS9") ∷ []

served :
    get_config (ok ("CA" ∷ [])) (after_changes lib (both (disk "VersionTLS12") ∷ history))
    ≡ some (
        ok (record {
          cipher_suites = some (4865 ∷ []);
          min_version = 771;
          certificate = record { pair = "CERT"; leaf = "CERT" };
          client_cas = "CA" ∷ [];
        }))
unfolding get_config reload reload_tls_profile reload_certificate load_cipher_suites_and_min_version
    load_certificates string_dec lookup
served = refl

refused :
    get_config (ok ("CA" ∷ [])) (after_changes lib history) ≡ some (err (other_error "no key"))
unfolding get_config reload reload_tls_profile reload_certificate load_cipher_suites_and_min_version
    load_certificates string_dec lookup
refused = refl

get_config-after_changes_example :
    get_config (ok ("CA" ∷ [])) (after_changes lib history)
    ≡ some (
        config_of
          (profile_error (last_profile lib history))
          (last_profile lib history)
          (ok ("CA" ∷ []))
          (failure_of (last_certificate lib history)))
get_config-after_changes_example = get_config-after_changes lib history (ok ("CA" ∷ []))
