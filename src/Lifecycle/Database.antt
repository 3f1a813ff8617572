-- ===== src/Lifecycle/Database.antt =====
-- One change of the database: one document changes by its specification, or a new call, event or
-- campaign is stored. A worker's run is any number of these, its own and those of the other workers.
use smart_dialer.Base.{◌≡◌, false, List, ◌∷◌, ◌++◌, ◌==◌, All, Star}
use smart_dialer.Model.{Agent, Borrower, Call, EventDocument, Campaign, event_clash}
use smart_dialer.Model.Enums.{CallState}
use smart_dialer.World.{Database}
use smart_dialer.Lifecycle.Steps.{
  RetryPolicy, AgentStep, BorrowerStep, CallStep, EventStep, CampaignStep, IsConsistent,
}

pub data Step (policy : RetryPolicy) (s : Database) : Database → Type 0 where
  agent :
      (left : List Agent) (d d' : Agent) (right : List Agent)
      → s.agents ≡ left ++ d ∷ right
      → AgentStep d d'
      → Step policy s (record s { agents = left ++ d' ∷ right })
  borrower :
      (left : List Borrower) (d d' : Borrower) (right : List Borrower)
      → s.borrowers ≡ left ++ d ∷ right
      → BorrowerStep policy d d'
      → Step policy s (record s { borrowers = left ++ d' ∷ right })
  call :
      (left : List Call) (d d' : Call) (right : List Call)
      → s.calls ≡ left ++ d ∷ right
      → CallStep d d'
      → Step policy s (record s { calls = left ++ d' ∷ right })
  new_call :
      (left : List Call) (d : Call) (right : List Call)
      → s.calls ≡ left ++ right
      → All (λ x. (d.id == x.id) ≡ false) (left ++ right)
      → IsConsistent d
      → d.state ≡ CallState.queued
      → Step policy s (record s { calls = left ++ d ∷ right })
  event :
      (left : List EventDocument) (d d' : EventDocument) (right : List EventDocument)
      → s.events ≡ left ++ d ∷ right
      → EventStep d d'
      → Step policy s (record s { events = left ++ d' ∷ right })
  new_event :
      (left : List EventDocument) (d : EventDocument) (right : List EventDocument)
      → s.events ≡ left ++ right
      → All (λ x. event_clash d x ≡ false) (left ++ right)
      → Step policy s (record s { events = left ++ d ∷ right })
  campaign :
      (left : List Campaign) (d d' : Campaign) (right : List Campaign)
      → s.campaigns ≡ left ++ d ∷ right
      → CampaignStep d d'
      → Step policy s (record s { campaigns = left ++ d' ∷ right })
  new_campaign :
      (left : List Campaign) (d : Campaign) (right : List Campaign)
      → s.campaigns ≡ left ++ right
      → All (λ x. (d.id == x.id) ≡ false) (left ++ right)
      → Step policy s (record s { campaigns = left ++ d ∷ right })

abbrev pub Reach : RetryPolicy → Database → Database → Type 0
Reach policy = Star (Step policy)
