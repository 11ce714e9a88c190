-- ===== src/Workflow/Created.antt =====
-- What `prepare` of apps/control-api/session_workflow.py creates and deletes before it meets an exception.
use irlight.Base.{
  ◌≡◌, refl, ap, ◌∙◌, ◌⊎◌, inl, inr, ◌&&◌, Bool, Option, none, some, List, [], ◌∷◌, ◌++◌, String,
}
use irlight.Base.Text.{◌=s◌}
use irlight.Session.Status.{Status}
use irlight.Session.Value.{Error}
use irlight.Session.Record.{Session, Change}
use irlight.Session.Provision.{is_cancelled}
use irlight.Workflow.World.{
  Kind, Candidate, Effect, Services, World, Act, created, create_volume, create_server,
  candidates_of,
}
use irlight.Workflow.Stop.{finish_cancelled_provisioning}
use irlight.Workflow.Provision.{
  PrepareCall, find_managed, or_create, volume_for, server_for, checkpoint, unless_cancelled,
  finish_ready, boot, serve, provision,
}
use irlight.Workflow.Emits.{Phase, phase_after, IsSilent, bind-IsSilent}
use irlight.Workflow.Makes.{Makes, Then, bind-Then, quiet-Makes, after_silent-Makes, choose-Makes}
use irlight.Workflow.Order.{call-IsSilent}
use irlight.Workflow.Revocation.{finish-From}

-- At most one creation of a kind.
abbrev pub IsOnce : Kind → List Effect → Type 0
IsOnce kind es = (es ≡ []) ⊎ ((b : Bool) × (es ≡ created kind b ∷ []))

-- Credentials first, then servers, then volumes.
abbrev pub IsOrdered : List Effect → Type 0
IsOrdered es = (q : Phase) × (phase_after (some Phase.start) es ≡ some q)

none_made : IsOrdered []
unfolding phase_after
none_made = (Phase.start, refl)

abbrev Rest : List Effect → Type 0
Rest = Then (IsOnce Kind.server) IsOrdered

Rest-none : Rest []
Rest-none = ([], [], refl, inl refl, none_made)

module _ {W : Type 0} (services : Services W) (message : Error → String) (a : PrepareCall) where
  or_create-IsOnce :
      (kind : Kind) (make : Act W Candidate) (o : Option Candidate)
      → Makes (IsOnce kind) make
      → Makes (IsOnce kind) (or_create services message a make o)
  unfolding or_create
  or_create-IsOnce kind make none makes = makes
  or_create-IsOnce kind make (some c) makes = quiet-Makes _ (inl refl) (λ w. refl)

  find-IsSilent : (kind : Kind) → IsSilent (find_managed services message a kind)
  unfolding find_managed candidates_of
  find-IsSilent kind = bind-IsSilent _ _ (λ w. refl) (λ cs w. refl)

  volume-IsOnce : Makes (IsOnce Kind.volume) (volume_for services message a)
  unfolding volume_for create_volume
  volume-IsOnce = after_silent-Makes _ _ (inl refl) (find-IsSilent Kind.volume) λ o.
      or_create-IsOnce Kind.volume _ o
        (record { adds = λ w. record { added = _ ∷ []; grown = refl; good = inr (_, refl) } })

  server-IsOnce :
      (volume : Candidate) → Makes (IsOnce Kind.server) (server_for services message a volume)
  unfolding server_for create_server
  server-IsOnce volume = after_silent-Makes _ _ (inl refl) (find-IsSilent Kind.server) λ o.
      or_create-IsOnce Kind.server _ o
        (record { adds = λ w. record { added = _ ∷ []; grown = refl; good = inr (_, refl) } })

  checkpoint-IsSilent :
      (next : Option Status) (complete : Bool) (changes : List Change)
      → IsSilent (checkpoint services message a next complete changes)
  unfolding checkpoint
  checkpoint-IsSilent next complete changes = call-IsSilent services _

  finish-IsOrdered : Makes IsOrdered (finish_cancelled_provisioning services a.session_id)
  finish-IsOrdered = record {
    adds = λ w.
        let (es, q, called, there, u) = (finish-From services a.session_id).runs w in
        record { added = es; grown = called; good = (q, there) };
  }

  unless-IsOrdered :
      (s : Session) (rest : Act W Session)
      → Makes IsOrdered rest
      → Makes IsOrdered (unless_cancelled services message a s rest)
  unfolding unless_cancelled
  unless-IsOrdered s rest makes = choose-Makes (is_cancelled s) _ _ finish-IsOrdered makes

  boot-IsOrdered : (server : Candidate) → Makes IsOrdered (boot services message a server)
  unfolding boot finish_ready
  boot-IsOrdered server = after_silent-Makes _ _ none_made (checkpoint-IsSilent _ _ _) λ s.
      unless-IsOrdered s _ (
        after_silent-Makes _ _ none_made (checkpoint-IsSilent _ _ _) λ t. unless-IsOrdered t _ (
          choose-Makes ((a.environment =s "prod") && a.handshake) _ _
            (quiet-Makes _ none_made (λ w. refl))
            (quiet-Makes _ none_made (checkpoint-IsSilent _ _ _))))

  serve-Rest : (volume : Candidate) → Makes Rest (serve services message a volume)
  unfolding serve
  serve-Rest volume = bind-Then _ _ none_made (server-IsOnce volume) boot-IsOrdered

  after_volume :
      (s : Session) (volume : Candidate)
      → Makes Rest (unless_cancelled services message a s (serve services message a volume))
  unfolding unless_cancelled
  after_volume s volume =
      choose-Makes (is_cancelled s) _ _ (late finish-IsOrdered) (serve-Rest volume)
    where
      late : {A : Type 0} {m : Act W A} → Makes IsOrdered m → Makes Rest m
      late makes = record {
        adds = λ w.
            let x = makes.adds w in
            record {
              added = x.added;
              grown = x.grown;
              good = ([], x.added, refl, inl refl, x.good);
            };
      }

  provision-Makes : Makes (Then (IsOnce Kind.volume) Rest) (provision services message a)
  unfolding provision
  provision-Makes = bind-Then _ _ Rest-none volume-IsOnce λ volume.
      after_silent-Makes _ _ Rest-none (checkpoint-IsSilent _ _ _) λ s. after_volume s volume

-- From its claim on and up to its first exception, `prepare` creates at most one volume, then at
-- most one server, and all that it deletes after that comes in order: the credentials are revoked
-- first, then servers are deleted, and volumes only where no server's deletion failed.
pub provision-creates :
    {W : Type 0} (services : Services W) (message : Error → String) (a : PrepareCall) (w : World W)
    → (volumes : List Effect) × (servers : List Effect) × (es : List Effect) × ((provision services
          message a w).1.calls
        ≡ w.calls ++ (volumes ++ (servers ++ es)))
      × IsOnce Kind.volume volumes
      × IsOnce Kind.server servers
      × IsOrdered es
provision-creates services message a w =
    let x = (provision-Makes services message a).adds w in
    let (volumes, rest, e, once, more) = x.good in
    let (servers, es, f, once', ordered) = more in
    (
      volumes,
      servers,
      es,
      x.grown ∙ ap (λ cs. w.calls ++ cs) (e ∙ ap (λ cs. volumes ++ cs) f),
      once,
      once',
      ordered,
    )
