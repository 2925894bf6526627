-- ===== src/Fleet/Rollback.antt =====
-- An Open that fails undoes what it did, and one that succeeds leaves exactly the fleet.
use go_afxdp.Prelude.{
  ℕ, zero, suc, ◌+◌, ◌≡◌, refl, ap, ◌∙◌, subst, Option, none, some, List, [], ◌∷◌, ◌++◌, map, arith,
  inl, inr, Option-cases, length, length-append, bit_or,
}
use go_afxdp.Prelude.Count.{count, count-append}
use go_afxdp.Program.{Program, register}
use go_afxdp.Fleet.{
  Host, Xsk, Attempt, Kernel, open_socket, close_socket, close_all, Registered, registered,
  unregistered, first_failure, register_sockets, Bound, bound, unbound, settle, try_binds,
}

abbrev pub queues : List Xsk → List ℕ
queues = map (λ x. x.queue)

-- The host has the open sockets of `base`, and those of `xs`.
abbrev pub Holds : (ℕ → ℕ) → List Xsk → Host → Type 0
Holds base xs h = (q : ℕ) → h.sockets q ≡ base q + count q (queues xs)

-- Nothing but sockets has changed on the host.
pub record SameHost (h h' : Host) : Type 0 where
  pub attached : h'.attached ≡ h.attached
  pub programs : h'.programs ≡ h.programs
  pub tuning : h'.tuning ≡ h.tuning

pub SameHost-trans : {h h' h'' : Host} → SameHost h h' → SameHost h' h'' → SameHost h h''
SameHost-trans a b = record {
  attached = b.attached ∙ a.attached;
  programs = b.programs ∙ a.programs;
  tuning = b.tuning ∙ a.tuning;
}

open_socket-Holds :
    (base : ℕ → ℕ) (xs : List Xsk) (h : Host) (q fd : ℕ)
    → Holds base xs h
    → Holds base (xs ++ (record { queue = q; fd = fd } ∷ [])) (open_socket q h)
unfolding count
open_socket-Holds base xs h q fd holds i =
    rw (queues-append xs (record { queue = q; fd = fd } ∷ []), count-append i (queues xs) (q ∷ []))
      (ground (arith, holds q, holds i))
  where
    queues-append : (xs ys : List Xsk) → queues (xs ++ ys) ≡ queues xs ++ queues ys
    queues-append [] ys = refl
    queues-append (x ∷ xs) ys = ap (λ qs. x.queue ∷ qs) (queues-append xs ys)

pub close_socket-Holds :
    (base : ℕ → ℕ) (x : Xsk) (xs : List Xsk) (h : Host)
    → Holds base (x ∷ xs) h
    → Holds base xs (close_socket x.queue h)
unfolding count
close_socket-Holds base x xs h holds i = ground (arith, holds i, holds x.queue)

close_all-SameHost : (xs : List Xsk) (h : Host) → SameHost h (close_all xs h)
unfolding close_all
close_all-SameHost [] h = record { attached = refl; programs = refl; tuning = refl }
close_all-SameHost (x ∷ xs) h =
    SameHost-trans (record { attached = refl; programs = refl; tuning = refl })
      (close_all-SameHost xs (close_socket x.queue h))

close_all-Holds :
    (base : ℕ → ℕ) (xs : List Xsk) (h : Host) → Holds base xs h → Holds base [] (close_all xs h)
unfolding close_all
close_all-Holds base [] h holds = holds
close_all-Holds base (x ∷ xs) h holds =
    close_all-Holds base xs (close_socket x.queue h) (close_socket-Holds base x xs h holds)

-- What the loop of `registerSockets` ends with, from `done` sockets on: those and `n` more, or none.
abbrev Books : (ℕ → ℕ) → Host → Program → ℕ → Registered → Type 0
Books base h p n (registered h' p' socks) =
    Holds base socks h' × SameHost h h' × (p'.link ≡ p.link) × (length socks ≡ n)
Books base h p n (unregistered h' p' c) = Holds base [] h' × SameHost h h' × (p'.link ≡ p.link)

register-link : (p : Program) (q fd : ℕ) (a b : Option ℕ) → (register p q fd a b).0.link ≡ p.link
unfolding register
register-link p q fd a b = elim (Option-cases p.maps) [ inl e ↦ rw e refl | inr (m, e) ↦ rw e refl ]

first_failure-of {ℓ} :
    {A : Type 0} (P : A → Type ℓ) (a b : Option ℕ) {f g : ℕ → A} {on : A}
    → ((c : ℕ) → P (f c))
    → ((c : ℕ) → P (g c))
    → P on
    → P (first_failure a b f g on)
first_failure-of P (some c) b hf hg h = hf c
first_failure-of P none (some c) hf hg h = hg c
first_failure-of P none none hf hg h = h

moved :
    (base : ℕ → ℕ) (h h' : Host) (p p' : Program) (n : ℕ) (r : Registered)
    → SameHost h h'
    → p'.link ≡ p.link
    → Books base h' p' n r
    → Books base h p n r
moved base h _ p _ n (registered h' p' socks) s l (a, b, c, d) = (a, SameHost-trans s b, c ∙ l, d)
moved base h _ p _ n (unregistered h' p' e) s l (a, b, c) = (a, SameHost-trans s b, c ∙ l)

same_host : (h : Host) → SameHost h h
same_host h = record { attached = refl; programs = refl; tuning = refl }

register_sockets-Books :
    (k : Kernel) (a : Attempt) (base : ℕ → ℕ) (n q : ℕ) (socks : List Xsk) (h : Host) (p : Program)
    → Holds base socks h
    → Books base h p (length socks + n) (register_sockets k a n q socks h p)
unfolding register_sockets
register_sockets-Books k a base zero q socks h p holds = (holds, same_host h, refl, omega arith)
register_sockets-Books k a base (suc n) q socks h p holds =
    first_failure-of (Books base h p (length socks + suc n)) (k.new_socket a q) reg.1
      (λ c. (close_all-Holds base socks h holds, close_all-SameHost socks h, refl))
      (λ c. (
        close_all-Holds base socks (close_socket q (open_socket q h)) reopened,
        SameHost-trans (record { attached = refl; programs = refl; tuning = refl })
            (close_all-SameHost socks (close_socket q (open_socket q h))),
        link,
      ))
      (moved base h (open_socket q h) p reg.0 (length socks + suc n) rest
        (record { attached = refl; programs = refl; tuning = refl }) link
        (subst (λ (m : ℕ). Books base (open_socket q h) reg.0 m rest) one_more
          (register_sockets-Books k a base n (q + 1) (socks ++ (new ∷ [])) (open_socket q h) reg.0
            (open_socket-Holds base socks h q (k.fd a q) holds))))
  where
    new : Xsk
    new = record { queue = q; fd = k.fd a q }

    reg : Program × Option ℕ
    reg = register p q (k.fd a q) (k.puts_socket a q) (k.puts_queue a q)

    rest : Registered
    rest = register_sockets k a n (q + 1) (socks ++ (new ∷ [])) (open_socket q h) reg.0

    one_more : length (socks ++ (new ∷ [])) + n ≡ length socks + suc n
    one_more = omega (arith, length-append socks (new ∷ []))

    link : reg.0.link ≡ p.link
    link = register-link p q (k.fd a q) (k.puts_socket a q) (k.puts_queue a q)

    reopened : Holds base socks (close_socket q (open_socket q h))
    reopened i = ground (arith, holds i, holds q)

-- What the loop over the bind flags ends with.
abbrev pub Bindings : (ℕ → ℕ) → Host → Program → ℕ → Bound → Type 0
Bindings base h p n (bound h' p' flags socks) =
    Holds base socks h' × SameHost h h' × (p'.link ≡ p.link) × (length socks ≡ n)
Bindings base h p n (unbound h' p') = Holds base [] h' × SameHost h h' × (p'.link ≡ p.link)

rebound :
    (base : ℕ → ℕ) (h h' : Host) (p p' : Program) (n : ℕ) (r : Bound)
    → SameHost h h'
    → p'.link ≡ p.link
    → Bindings base h' p' n r
    → Bindings base h p n r
rebound base h _ p _ n (bound h' p' f socks) s l (a, b, c, d) = (a, SameHost-trans s b, c ∙ l, d)
rebound base h _ p _ n (unbound h' p') s l (a, b, c) = (a, SameHost-trans s b, c ∙ l)

settle-Bindings :
    (base : ℕ → ℕ) (h : Host) (p : Program) (n flags : ℕ) (retry : Host → Program → Bound)
    (r : Registered)
    → ((h' : Host) (p' : Program) → Holds base [] h' → Bindings base h' p' n (retry h' p'))
    → Books base h p n r
    → Bindings base h p n (settle flags retry r)
settle-Bindings base h p n flags retry (registered h' p' socks) ih b = b
settle-Bindings base h p n flags retry (unregistered h' p' e) ih (a, s, l) =
    rebound base h h' p p' n (retry h' p') s l (ih h' p' a)

from_none :
    (k : Kernel) (a : Attempt) (base : ℕ → ℕ) (n : ℕ) (h : Host) (p : Program)
    → Holds base [] h
    → Books base h p n (register_sockets k a n 0 [] h p)
from_none k a base n h p holds =
    subst (λ (m : ℕ). Books base h p m (register_sockets k a n 0 [] h p))
      {x = length {A = Xsk} [] + n} {y = n} (omega arith)
      (register_sockets-Books k a base n 0 [] h p holds)

pub try_binds-Bindings :
    (k : Kernel) (base : ℕ → ℕ) (flags base_flags n : ℕ) (bs : List ℕ) (h : Host) (p : Program)
    → Holds base [] h
    → Bindings base h p n (try_binds k flags base_flags n bs h p)
unfolding try_binds
try_binds-Bindings k base flags base_flags n [] h p holds = (holds, same_host h, refl)
try_binds-Bindings k base flags base_flags n (b ∷ bs) h p holds =
    settle-Bindings base h p n (bit_or b base_flags) _ _
      (λ h' p' a. try_binds-Bindings k base flags base_flags n bs h' p' a)
      (from_none k (record { xdp_flags = flags; bind_flags = bit_or b base_flags }) base n h p
        holds)
