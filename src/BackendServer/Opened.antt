-- ===== src/BackendServer/Opened.antt =====
-- What holds of every server that `newBackendServer` makes.
use mathlib.Core.Path.{subst}
use simult.Prelude.{
  ◌≡◌, Bool, true, false, Option, none, some, [], if-cases, Bytes, codes, ◌=ᵇ◌, to_lower,
}
use simult.BackendServer.{
  BackendServer, ServerUrl, build, Made, made, refused, from_url, of_parsed, new_backend_server,
}

-- What a server that was made satisfies.
abbrev MadeOf : (BackendServer → Type 0) → Made BackendServer → Type 0
MadeOf P (made s) = P s
MadeOf P (refused e) = Unit {0}

module _ (P : BackendServer → Type 0)
    (built : (u : ServerUrl) (address : Bytes) (use_tls : Bool) → P (build u address use_tls)) where
  from_url-MadeOf : (u : ServerUrl) → MadeOf P (from_url u)
  unfolding from_url
  from_url-MadeOf u =
      if-cases (MadeOf P) (u.host =ᵇ []) (λ _. tt)
        (λ _.
          if-cases (MadeOf P) (u.scheme =ᵇ codes "http") (λ _. built u _ false)
            (λ _.
              if-cases (MadeOf P) (u.scheme =ᵇ codes "https") (λ _. built u _ true)
                (λ _. if-cases (MadeOf P) (u.port =ᵇ []) (λ _. tt) (λ _. built u [] false))))

  of_parsed-MadeOf : (o : Option ServerUrl) → MadeOf P (of_parsed o)
  unfolding of_parsed
  of_parsed-MadeOf none = tt
  of_parsed-MadeOf (some u) = from_url-MadeOf u

  pub new_backend_server-made :
      (url_parse : Bytes → Option ServerUrl) (server : Bytes) (s : BackendServer)
      → new_backend_server url_parse server ≡ made s
      → P s
  unfolding new_backend_server
  new_backend_server-made url_parse server s e =
      subst (MadeOf P) e (of_parsed-MadeOf (url_parse (to_lower server)))
