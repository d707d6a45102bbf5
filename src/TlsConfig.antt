-- ===== src/TlsConfig.antt =====
-- pkg/tlsconfig/tlsconfig.go: the TLS configuration of the API server, which is loaded again whenever a
-- file changes. A file system is what the files hold at one moment.
pub mod Served
mod Tests
use device_mounter.Base.{
  ℕ, String, ◌<>◌, Option, none, some, List, [], ◌∷◌, ◌++◌, eqs, if◌then◌else◌,
}
use device_mounter.Base.Dict.{Dict, lookup}
use device_mounter.Api.{GoError, other_error, message, Result, ok, err}

-- A result with an error that wraps `os.ErrNotExist`, or with any other.
pub data Outcome (A : Type 0) : Type 0 where
  loaded : A → Outcome A
  missing : String → Outcome A
  broken : String → Outcome A

-- pkg/api/v1alpha1/types.go
pub record TlsProfile : Type 0 where
  pub ciphers : List String
  pub min_tls_version : String

-- `tls.Certificate`: what `tls.X509KeyPair` makes of the texts, with its leaf.
pub record Certificate : Type 0 where
  pub pair : String
  pub leaf : String

pub record Disk : Type 0 where
  pub open_profile : Outcome String
  pub read_cert : Outcome String
  pub read_key : Outcome String

pub record Library : Type 0 where
  -- The decoder of YAML, and `tls.CipherSuites()` by their names.
  pub decode_profile : String → Outcome TlsProfile
  pub cipher_suites : Dict ℕ
  pub key_pair : String → String → Result String
  -- `cert.ParseCertsPEM` returns at least one certificate, or an error.
  pub parse_certs : String → Result (String × List String)

-- The fields of `watch` that a reload changes; ciphers that are nil are none.
pub record Watch : Type 0 where
  pub tls_profile_error : Option String
  pub ciphers : Option (List ℕ)
  pub min_tls_version : ℕ
  pub certificate : Option Certificate
  pub cert_error : Option String

-- The fields of `tls.Config` that are set; the clients' certificates are always required and
-- verified.
pub record Config : Type 0 where
  pub cipher_suites : Option (List ℕ)
  pub min_version : ℕ
  pub certificate : Certificate
  pub client_cas : List String

-- `NewWatch`
abbrev pub new_watch : Watch
new_watch = record {
  tls_profile_error = some "tls profile not loaded";
  ciphers = none;
  min_tls_version = 0;
  certificate = none;
  cert_error = some "certificate not loaded";
}

-- `fmt.Errorf` with `%w` keeps what the error wraps.
abbrev pub wrapped : {A B : Type 0} → String → Outcome A → (A → Outcome B) → Outcome B
wrapped text (loaded a) continue = continue a
wrapped text (missing e) continue = missing (text <> e)
wrapped text (broken e) continue = broken (text <> e)

abbrev pub cons_suite : Option ℕ → String → Outcome (List ℕ) → Outcome (List ℕ)
cons_suite none name rest = broken ("unknown cipher suite: " <> name)
cons_suite (some id) name (loaded ids) = loaded (id ∷ ids)
cons_suite (some id) name (missing e) = missing e
cons_suite (some id) name (broken e) = broken e

abbrev pub not_nil : Outcome (List ℕ) → Outcome (Option (List ℕ))
not_nil (loaded ids) = loaded (some ids)
not_nil (missing e) = missing e
not_nil (broken e) = broken e

-- `getMinTlsVersion`, with the numbers of crypto/tls.
unfoldable pub get_min_tls_version : String → Outcome ℕ
get_min_tls_version version =
    if eqs version ""
    then loaded 0
    else if eqs version "VersionTLS10"
    then loaded 0x0301
    else if eqs version "VersionTLS11"
    then loaded 0x0302
    else if eqs version "VersionTLS12"
    then loaded 0x0303
    else if eqs version "VersionTLS13"
    then loaded 0x0304
    else broken ("unsupported TLS version: " <> version)

module _ (lib : Library) where
  -- The loops of `getCipherSuites`
  unfoldable pub find_cipher_suites : List String → Outcome (List ℕ)
  find_cipher_suites [] = loaded []
  find_cipher_suites (name ∷ names) =
      cons_suite (lookup name lib.cipher_suites) name (find_cipher_suites names)

  -- `getCipherSuites`
  unfoldable pub get_cipher_suites : List String → Outcome (Option (List ℕ))
  unfolding find_cipher_suites
  get_cipher_suites [] = loaded none
  get_cipher_suites (name ∷ names) = not_nil (find_cipher_suites (name ∷ names))

  -- `loadTlsProfile`
  unfoldable pub load_tls_profile : Disk → Outcome TlsProfile
  load_tls_profile disk = wrapped "error opening file: " disk.open_profile λ text.
      wrapped "error decoding tls config: " (lib.decode_profile text) λ profile. loaded profile

  -- `loadCipherSuitesAndMinVersion`
  unfoldable pub load_cipher_suites_and_min_version : Disk → Outcome (Option (List ℕ) × ℕ)
  unfolding load_tls_profile get_cipher_suites get_min_tls_version
  load_cipher_suites_and_min_version disk =
      wrapped "could not load tls config: " (load_tls_profile disk) λ profile.
        wrapped "could not get cipher suite numbers: " (get_cipher_suites profile.ciphers)
          λ ciphers.
            wrapped "could not get minimum TLS version: "
              (get_min_tls_version profile.min_tls_version) λ version. loaded (ciphers, version)

  abbrev pub take_profile : Watch → Outcome (Option (List ℕ) × ℕ) → Watch
  take_profile w (missing e) = record w {
    tls_profile_error = none;
    ciphers = none;
    min_tls_version = 0;
  }
  take_profile w (broken e) = record w {
    tls_profile_error = some ("failed to load TLS configuration: " <> e);
  }
  take_profile w (loaded (ciphers, version)) = record w {
    tls_profile_error = none;
    ciphers = ciphers;
    min_tls_version = version;
  }

  -- `reloadTlsProfile`
  unfoldable pub reload_tls_profile : Disk → Watch → Watch
  reload_tls_profile disk w = take_profile w (load_cipher_suites_and_min_version disk)

  abbrev pub parsed : {A B : Type 0} → String → Result A → (A → Outcome B) → Outcome B
  parsed text (ok a) continue = continue a
  parsed text (err e) continue = broken (text <> (message e <> "\n"))

  -- `LoadCertificates`
  unfoldable pub load_certificates : Disk → Outcome Certificate
  load_certificates disk = wrapped "" disk.read_cert λ cert. wrapped "" disk.read_key λ key.
      parsed "failed to load certificate: " (lib.key_pair cert key) λ pair.
        parsed "failed to load leaf certificate: " (lib.parse_certs cert)
          λ (leaf, rest). loaded (record { pair = pair; leaf = leaf })

  abbrev pub take_certificate : Watch → Outcome Certificate → Watch
  take_certificate w (loaded certificate) = record w {
    cert_error = none;
    certificate = some certificate;
  }
  take_certificate w (missing e) = record w { cert_error = some e }
  take_certificate w (broken e) = record w { cert_error = some e }

  -- `reloadCertificate`
  unfoldable pub reload_certificate : Disk → Watch → Watch
  reload_certificate disk w = take_certificate w (load_certificates disk)

  -- `Reload`
  unfoldable pub reload : Disk → Watch → Watch
  reload disk w = reload_certificate disk (reload_tls_profile disk w)

abbrev pub configured : Watch → List String → Option Certificate → Option (Result Config)
configured w client_ca none = none
configured w client_ca (some certificate) = some (
    ok (record {
      cipher_suites = w.ciphers;
      min_version = w.min_tls_version;
      certificate = certificate;
      client_cas = client_ca;
    }))

abbrev pub unless_failed :
    Option String → Option String → Option (Result Config) → Option (Result Config)
unless_failed (some e) cert_error rest = some (err (other_error e))
unless_failed none (some e) rest = some (err (other_error e))
unless_failed none none rest = rest

-- `GetConfig` for the answer of `GetClientCA`; none is a panic, the read of a certificate that is nil.
unfoldable pub get_config : Result (List String) → Watch → Option (Result Config)
get_config (err e) w = some (err e)
get_config (ok client_ca) w =
    unless_failed w.tls_profile_error w.cert_error (configured w client_ca w.certificate)
