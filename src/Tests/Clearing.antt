-- ===== src/Tests/Clearing.antt =====
-- Runs of the theorems on the removal of old containers and on jobs.
use softwarecontainer.Common.{
  ◌≡◌, refl, ℕ, true, false, ◌&&◌, not, Option, some, List, [], ◌∷◌, arith, All,
}
use softwarecontainer.Common.Bytes.{Bytes, bytes, ◌==◌, eq_iff, str_lt}
use softwarecontainer.Common.OrdMap.{insert}
use softwarecontainer.Common.Throwing.{ok}
use softwarecontainer.Lxc.{Lxc}
use softwarecontainer.ContainerUtility.{
  is_sc_name, is_one_line, container_map, stop_old, destroy_old, remove_old, remove_each,
  remove_old_containers,
}
use softwarecontainer.ContainerUtility.Removal.{remove_old_containers-Gone}
use softwarecontainer.Tests.Hosts.{System, small_lxc, empty_system}

-- A container is there as long as there is a directory of its number.
abbrev clearing_lxc : Lxc System ℕ
clearing_lxc = record small_lxc {
  destroy = λ h s. (true, record s { directories = λ q. not (q == (h ∷ [])) && s.directories q });
}

abbrev Gone : ℕ → System → Type 0
Gone h s = s.directories (h ∷ []) ≡ false

abbrev two_listed : List (Bytes × ℕ)
two_listed = (bytes "SC-1", 4) ∷ (bytes "web", 5) ∷ []

abbrev list_two : Bytes → System → Option (List (Bytes × ℕ)) × System
list_two path s = (some two_listed, s)

abbrev crowded_system : System
crowded_system = record empty_system { directories = λ q. true }

destroyed-Gone :
    (h : ℕ) (s : System) → (clearing_lxc.destroy h s).0 ≡ true → Gone h (clearing_lxc.destroy h s).1
destroyed-Gone h s e = ground (arith, eq_iff (h ∷ []) (h ∷ []))

destroy-Gone : (g h : ℕ) (s : System) → Gone g s → Gone g (clearing_lxc.destroy h s).1
destroy-Gone g h s e = ground (arith, e)

listed_removed : (remove_old_containers clearing_lxc list_two crowded_system).0 ≡ ok tt
unfolding remove_old_containers container_map remove_each remove_old is_sc_name is_one_line stop_old
    destroy_old insert str_lt ◌==◌
listed_removed = refl

remove_old_containers-Gone_example :
    All
      (λ c.
        is_sc_name c.0 ≡ true
        → Gone c.1 (remove_old_containers clearing_lxc list_two crowded_system).1)
      (container_map two_listed [])
remove_old_containers-Gone_example =
    remove_old_containers-Gone clearing_lxc Gone destroyed-Gone (λ g h s e. e) destroy-Gone list_two
      two_listed crowded_system refl listed_removed
