-- ===== src/Pkg/Distro.antt =====
-- libpkg/pkg.h: the distributions and their names.
use agent_resources.Prelude.{ℕ, List, [], ◌∷◌}
use agent_resources.Text.{codes}

pub data LinuxDistro : Type 0 where
  distro_unknown : LinuxDistro
  distro_arch_linux distro_manjaro distro_endeavouros distro_arco distro_garuda : LinuxDistro
  distro_debian distro_ubuntu distro_linux_mint distro_pop_os : LinuxDistro
  distro_fedora distro_rhel distro_centos_stream distro_rocky distro_alma : LinuxDistro
  distro_gentoo distro_nixos distro_opensuse : LinuxDistro
  distro_count : LinuxDistro

pub record DistroStack : Type 0 where
  pub name : List ℕ
  pub linux_distro : LinuxDistro

abbrev entry : List ℕ → LinuxDistro → DistroStack
entry name distro = record { name = name; linux_distro = distro }

abbrev pub distro_map : List DistroStack
distro_map =
    entry (codes "arch") distro_arch_linux
    ∷ entry (codes "manjaro") distro_manjaro
    ∷ entry (codes "endeavouros") distro_endeavouros
    ∷ entry (codes "arco") distro_arco
    ∷ entry (codes "garuda") distro_garuda
    ∷ entry (codes "debian") distro_debian
    ∷ entry (codes "ubuntu") distro_ubuntu
    ∷ entry (codes "mint") distro_linux_mint
    ∷ entry (codes "pop") distro_pop_os
    ∷ entry (codes "fedora") distro_fedora
    ∷ entry (codes "rhel") distro_rhel
    ∷ entry (codes "centos") distro_centos_stream
    ∷ entry (codes "rocky") distro_rocky
    ∷ entry (codes "alma") distro_alma
    ∷ entry (codes "gentoo") distro_gentoo
    ∷ entry (codes "nixos") distro_nixos
    ∷ entry (codes "opensuse") distro_opensuse
    ∷ []
