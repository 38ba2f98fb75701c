-- ===== src/Socket/Lifetime.antt =====
-- Mgmt/src/mgmt_socket.c: what mgmt_socket_create and mgmt_socket_destroy acquire and release.
use study_c.Prelude.{
  ℕ, ◌==◌, ◌≡◌, refl, Bool, true, false, Option, none, some, List, [], ◌∷◌, ◌++◌, ℤ, pos, negsuc,
  Bytes, is_negative, if◌then◌else◌,
}
use study_c.Lifecycle.{Event, acquire, release, orderly}
use study_c.Socket.{MgmtSocket, create}

pub data Resource : Type 0 where
  memory descriptor socket_file stats_lock : Resource

-- By the arguments of `create`. A file that an earlier run left is unlinked before the bind.
unfoldable pub create_events : Option Bytes → Bool → ℤ → Bool → List (Event Resource)
create_events none memory_ok fd bound = []
create_events (some path) false fd bound = []
create_events (some path) true (negsuc n) bound = acquire memory ∷ release memory ∷ []
create_events (some path) true (pos fd) false =
    acquire memory ∷ acquire descriptor ∷ release descriptor ∷ release memory ∷ []
create_events (some path) true (pos fd) true =
    acquire memory ∷ acquire descriptor ∷ acquire socket_file ∷ acquire stats_lock ∷ []

-- mgmt_socket_destroy
unfoldable pub destroy_events : Option MgmtSocket → List (Event Resource)
destroy_events none = []
destroy_events (some s) =
    (if is_negative s.socket_fd then [] else release descriptor ∷ [])
    ++ (release socket_file ∷ release stats_lock ∷ release memory ∷ [])

abbrev number : Resource → ℕ
number memory = 0
number descriptor = 1
number socket_file = 2
number stats_lock = 3

abbrev same : Resource → Resource → Bool
same r s = number r == number s

abbrev users : Resource → List Resource
users r = []

-- Whatever the calls answer, mgmt_socket_create and then mgmt_socket_destroy on what it returned
-- release each thing that was acquired, once.
lifetime-orderly :
    (path : Option Bytes) (memory_ok : Bool) (fd : ℤ) (bound : Bool)
    → orderly same users [] []
        (create_events path memory_ok fd bound ++ destroy_events (create path memory_ok fd bound))
      ≡ true
unfolding create_events destroy_events create
lifetime-orderly none memory_ok fd bound = refl
lifetime-orderly (some path) false fd bound = refl
lifetime-orderly (some path) true (negsuc n) bound = refl
lifetime-orderly (some path) true (pos fd) false = refl
lifetime-orderly (some path) true (pos fd) true = refl
