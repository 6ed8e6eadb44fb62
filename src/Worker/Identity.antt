-- ===== src/Worker/Identity.antt =====
-- `default_worker_id` and the constructor of `Worker`. The host's name, the process's number and the
-- digits of `uuid4().hex` are arguments.
use mathlib.Core.List.{append_assoc}
use legallens.Prelude.{
  ℕ, zero, suc, Bool, ◌≡◌, refl, ap, sym, ◌∙◌, true, false, not, [], ◌∷◌, ◌++◌, Text, text_eq,
  Option, none, some, take, arith, nat_beq,
}
use legallens.Prelude.Dict.{Dict}
use legallens.Python.Encoding.{decimal}
use legallens.Python.Integers.{is_digit, int}
use legallens.Python.Splits.{lacks, every, every_mono, every-append}
use legallens.Python.Decimals.{every-decimal, int-decimal}
use legallens.Worker.{Handler, Worker}

-- f"{socket.gethostname()}-{os.getpid()}-{uuid.uuid4().hex[:6]}"
unfoldable pub default_worker_id : Text → ℕ → Text → Text
default_worker_id hostname pid hex = hostname ++ b'-' ∷ (decimal pid ++ b'-' ∷ take 6 hex)

-- `worker_id or default_worker_id()`
abbrev id_or : Text → Option Text → Text
id_or default none = default
id_or default (some []) = default
id_or default (some (c ∷ s)) = c ∷ s

-- `handlers or {}`
abbrev handlers_or : {P W : Type 0} → Option (Dict Text (Handler P W)) → Dict Text (Handler P W)
handlers_or none = []
handlers_or (some handlers) = handlers

-- `__init__`
unfoldable pub new_worker :
    {P W : Type 0} → Option Text → Option (Dict Text (Handler P W)) → Text → Worker P W
new_worker worker_id handlers default = record {
  worker_id = id_or default worker_id;
  handlers = handlers_or handlers;
}

append-lacks : (sep : ℕ) (b t : Text) → lacks sep (b ++ sep ∷ t) ≡ false
append-lacks sep b t = ground (arith, every-append (λ c. not (nat_beq c sep)) b (sep ∷ t))

not_last : (sep : ℕ) (b s t : Text) → lacks sep s ≡ true → s ≡ b ++ sep ∷ t → ⊥
not_last sep b s t h e = absurd (cc (append-lacks sep b t, ap (lacks sep) e))

-- The last separator of a text can be found again.
split_at_last :
    (sep : ℕ) (a b s t : Text)
    → lacks sep s ≡ true
    → lacks sep t ≡ true
    → a ++ sep ∷ s ≡ b ++ sep ∷ t
    → (a ≡ b) × (s ≡ t)
split_at_last sep [] [] s t h g e = (refl, cc)
split_at_last sep [] (c ∷ b) s t h g e = absurd (not_last sep b s t h (cc))
split_at_last sep (c ∷ a) [] s t h g e = absurd (not_last sep a t s g (cc))
split_at_last sep (c ∷ a) (d ∷ b) s t h g e =
    let (same, rest) = split_at_last sep a b s t h g (cc) in ((cc), rest)

every-take : (q : ℕ → Bool) (n : ℕ) (s : Text) → every q s ≡ true → every q (take n s) ≡ true
every-take q zero s h = refl
every-take q (suc n) [] h = refl
every-take q (suc n) (c ∷ s) h = ground (arith, every-take q n s)

decimal-lacks_dash : (n : ℕ) → lacks b'-' (decimal n) ≡ true
unfolding is_digit
decimal-lacks_dash n =
    every_mono is_digit (λ c. not (nat_beq c b'-')) (λ c d. ground arith) (decimal n)
      (every-decimal n)

decimal_inj : (m n : ℕ) → decimal m ≡ decimal n → m ≡ n
decimal_inj m n e = cc (int-decimal m, int-decimal n, ap int e)

-- Where `uuid4().hex` has no dash in it, two processes get the same id only if they have the same
-- host, the same number, and the same first six digits.
pub default_worker_id_inj :
    (h h' : Text) (pid pid' : ℕ) (hex hex' : Text)
    → lacks b'-' hex ≡ true
    → lacks b'-' hex' ≡ true
    → default_worker_id h pid hex ≡ default_worker_id h' pid' hex'
    → (h ≡ h') × (pid ≡ pid') × (take 6 hex ≡ take 6 hex')
unfolding default_worker_id
default_worker_id_inj h h' pid pid' hex hex' d d' e =
    let dashless : ℕ → Bool = λ c. not (nat_beq c b'-') in
    let whole : (h ++ b'-' ∷ decimal pid) ++ b'-' ∷ take 6 hex
        ≡ (h' ++ b'-' ∷ decimal pid') ++ b'-' ∷ take 6 hex' =
      append_assoc h (b'-' ∷ decimal pid) (b'-' ∷ take 6 hex)
      ∙ e
      ∙ sym (append_assoc h' (b'-' ∷ decimal pid') (b'-' ∷ take 6 hex')) in
    let (front, digits) =
      split_at_last b'-' (h ++ b'-' ∷ decimal pid) (h' ++ b'-' ∷ decimal pid') (take 6 hex)
        (take 6 hex') (every-take dashless 6 hex d) (every-take dashless 6 hex' d') whole in
    let (host, number) =
      split_at_last b'-' h h' (decimal pid) (decimal pid') (decimal-lacks_dash pid)
        (decimal-lacks_dash pid') front in
    (host, decimal_inj pid pid' number, digits)
