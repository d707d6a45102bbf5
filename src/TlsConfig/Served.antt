-- ===== src/TlsConfig/Served.antt =====
-- What pkg/tlsconfig/tlsconfig.go serves behind any sequence of reloads.
use device_mounter.Base.{ℕ, String, ◌<>◌, Option, none, some, List, [], ◌∷◌, ◌≡◌, refl, arith}
use device_mounter.Api.{other_error, Result, ok, err}
use device_mounter.TlsConfig.{
  Outcome, loaded, missing, broken, Certificate, Disk, Library, Watch, Config, new_watch,
  load_cipher_suites_and_min_version, take_profile, reload_tls_profile, load_certificates,
  take_certificate, reload_certificate, reload, get_config,
}

-- A change of a watched directory, with what the files hold then, or a reload of both.
pub data Change : Type 0 where
  profile certificate both : Disk → Change

abbrev Profile : Type 0
Profile = Outcome (Option (List ℕ) × ℕ)

-- What a profile that was loaded last means: no profile is the default.
abbrev pub profile_error : Option Profile → Option String
profile_error none = some "tls profile not loaded"
profile_error (some (loaded p)) = none
profile_error (some (missing e)) = none
profile_error (some (broken e)) = some ("failed to load TLS configuration: " <> e)

abbrev pub profile_of : Option Profile → Option (List ℕ) × ℕ
profile_of none = (none, 0)
profile_of (some (loaded p)) = p
profile_of (some (missing e)) = (none, 0)
profile_of (some (broken e)) = (none, 0)

abbrev pub failure_of : Option (Outcome Certificate) → Result Certificate
failure_of none = err (other_error "certificate not loaded")
failure_of (some (loaded c)) = ok c
failure_of (some (missing e)) = err (other_error e)
failure_of (some (broken e)) = err (other_error e)

abbrev with_profile : Option Profile → List String → Result Certificate → Result Config
with_profile p client_ca (err e) = err e
with_profile p client_ca (ok c) = ok (record {
  cipher_suites = (profile_of p).0;
  min_version = (profile_of p).1;
  certificate = c;
  client_cas = client_ca;
})

-- A configuration made of a profile, a certificate and the authorities, without a state.
abbrev pub config_of :
    Option String → Option Profile → Result (List String) → Result Certificate → Result Config
config_of failed p (err e) c = err e
config_of (some e) p (ok client_ca) c = err (other_error e)
config_of none p (ok client_ca) c = with_profile p client_ca c

module _ (lib : Library) where
  -- The changes are the newest first.
  abbrev pub after_changes : List Change → Watch
  after_changes [] = new_watch
  after_changes (profile disk ∷ earlier) = reload_tls_profile lib disk (after_changes earlier)
  after_changes (certificate disk ∷ earlier) = reload_certificate lib disk (after_changes earlier)
  after_changes (both disk ∷ earlier) = reload lib disk (after_changes earlier)

  -- What the last load of each kind gave.
  abbrev pub last_profile : List Change → Option Profile
  last_profile [] = none
  last_profile (profile disk ∷ earlier) = some (load_cipher_suites_and_min_version lib disk)
  last_profile (certificate disk ∷ earlier) = last_profile earlier
  last_profile (both disk ∷ earlier) = some (load_cipher_suites_and_min_version lib disk)

  abbrev pub last_certificate : List Change → Option (Outcome Certificate)
  last_certificate [] = none
  last_certificate (profile disk ∷ earlier) = last_certificate earlier
  last_certificate (certificate disk ∷ earlier) = some (load_certificates lib disk)
  last_certificate (both disk ∷ earlier) = some (load_certificates lib disk)

  -- The state says what the last loads gave; behind a failure the old values are still there, but not
  -- served.
  abbrev HoldsProfile : Option Profile → Watch → Type 0
  HoldsProfile none w = w.tls_profile_error ≡ some "tls profile not loaded"
  HoldsProfile (some (loaded (ciphers, version))) w =
      (w.tls_profile_error ≡ none) × (w.ciphers ≡ ciphers) × (w.min_tls_version ≡ version)
  HoldsProfile (some (missing e)) w =
      (w.tls_profile_error ≡ none) × (w.ciphers ≡ none) × (w.min_tls_version ≡ 0)
  HoldsProfile (some (broken e)) w =
      w.tls_profile_error ≡ some ("failed to load TLS configuration: " <> e)

  abbrev HoldsCertificate : Option (Outcome Certificate) → Watch → Type 0
  HoldsCertificate none w = w.cert_error ≡ some "certificate not loaded"
  HoldsCertificate (some (loaded c)) w = (w.cert_error ≡ none) × (w.certificate ≡ some c)
  HoldsCertificate (some (missing e)) w = w.cert_error ≡ some e
  HoldsCertificate (some (broken e)) w = w.cert_error ≡ some e

  take_profile-HoldsProfile :
      (w : Watch) (p : Profile) → HoldsProfile (some p) (take_profile lib w p)
  take_profile-HoldsProfile w (loaded (ciphers, version)) = (refl, refl, refl)
  take_profile-HoldsProfile w (missing e) = (refl, refl, refl)
  take_profile-HoldsProfile w (broken e) = refl

  take_profile-HoldsCertificate :
      (w : Watch) (p : Profile) (c : Option (Outcome Certificate))
      → HoldsCertificate c w
      → HoldsCertificate c (take_profile lib w p)
  take_profile-HoldsCertificate w p c h = ground arith

  take_certificate-HoldsCertificate :
      (w : Watch) (c : Outcome Certificate) → HoldsCertificate (some c) (take_certificate lib w c)
  take_certificate-HoldsCertificate w (loaded c) = (refl, refl)
  take_certificate-HoldsCertificate w (missing e) = refl
  take_certificate-HoldsCertificate w (broken e) = refl

  take_certificate-HoldsProfile :
      (w : Watch) (c : Outcome Certificate) (p : Option Profile)
      → HoldsProfile p w
      → HoldsProfile p (take_certificate lib w c)
  take_certificate-HoldsProfile w c p h = ground arith

  after_changes-HoldsProfile :
      (changes : List Change) → HoldsProfile (last_profile changes) (after_changes changes)
  unfolding reload_tls_profile reload_certificate reload
  after_changes-HoldsProfile [] = refl
  after_changes-HoldsProfile (profile disk ∷ earlier) =
      take_profile-HoldsProfile (after_changes earlier)
        (load_cipher_suites_and_min_version lib disk)
  after_changes-HoldsProfile (certificate disk ∷ earlier) =
      take_certificate-HoldsProfile (after_changes earlier) (load_certificates lib disk)
        (last_profile earlier) (after_changes-HoldsProfile earlier)
  after_changes-HoldsProfile (both disk ∷ earlier) =
      take_certificate-HoldsProfile
        (take_profile lib (after_changes earlier) (load_cipher_suites_and_min_version lib disk))
        (load_certificates lib disk) (some (load_cipher_suites_and_min_version lib disk))
        (take_profile-HoldsProfile (after_changes earlier)
          (load_cipher_suites_and_min_version lib disk))

  after_changes-HoldsCertificate :
      (changes : List Change) → HoldsCertificate (last_certificate changes) (after_changes changes)
  unfolding reload_tls_profile reload_certificate reload
  after_changes-HoldsCertificate [] = refl
  after_changes-HoldsCertificate (profile disk ∷ earlier) =
      take_profile-HoldsCertificate (after_changes earlier)
        (load_cipher_suites_and_min_version lib disk) (last_certificate earlier)
        (after_changes-HoldsCertificate earlier)
  after_changes-HoldsCertificate (certificate disk ∷ earlier) =
      take_certificate-HoldsCertificate (after_changes earlier) (load_certificates lib disk)
  after_changes-HoldsCertificate (both disk ∷ earlier) =
      take_certificate-HoldsCertificate
        (take_profile lib (after_changes earlier) (load_cipher_suites_and_min_version lib disk))
        (load_certificates lib disk)

  get_config-config_of :
      (w : Watch) (p : Option Profile) (c : Option (Outcome Certificate))
      (client_ca : Result (List String))
      → HoldsProfile p w
      → HoldsCertificate c w
      → get_config client_ca w ≡ some (config_of (profile_error p) p client_ca (failure_of c))
  unfolding get_config
  get_config-config_of w p c client_ca hp hc = ground arith

  -- Whatever was reloaded before, the configuration for a client is made of the authorities of the
  -- moment, the profile that was loaded last and the certificate that was loaded last; it is the
  -- error of one of these if that failed or was never loaded, and it is never a panic.
  pub get_config-after_changes :
      (changes : List Change) (client_ca : Result (List String))
      → get_config client_ca (after_changes changes)
        ≡ some (
            config_of
              (profile_error (last_profile changes))
              (last_profile changes)
              client_ca
              (failure_of (last_certificate changes)))
  get_config-after_changes changes client_ca =
      get_config-config_of (after_changes changes) (last_profile changes) (last_certificate changes)
        client_ca (after_changes-HoldsProfile changes) (after_changes-HoldsCertificate changes)
