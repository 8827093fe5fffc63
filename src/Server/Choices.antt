-- ===== src/Server/Choices.antt =====
-- The numbers that the menus of ControlServer/BrokerAndControlServer.c offer are the ones that they take.
use embedded_project_exam.Base.{
  ℕ, ◌-◌, ◌≡◌, ◌≢◌, ◌↔◌, refl, Bool, false, ◌&&◌, ◌||◌, some, List, [], ◌∷◌, ◌++◌, leb, ◌==◌, arith,
  if◌then◌else◌,
}
use embedded_project_exam.Server.{Server, Screen, main, light, washer, ended}
use embedded_project_exam.Server.Menu.{messages, at_menu, call_menu, call_light, call_washer}
use embedded_project_exam.Server.Console.{
  Output, clear, prompt, reply, reply_menu, reply_light, reply_washer, light_output, washer_output,
  wrong_action, wrong_device,
}

-- A line that starts with a digit and a full stop offers that number.
unfoldable pub offers : ℕ → Output → Bool
offers n (Output.printed (c ∷ d ∷ cs)) = leb 48 c && leb c 57 && d == 46 && n == c - 48
offers n _ = false

unfoldable pub any_offers : ℕ → List Output → Bool
unfolding offers
any_offers n [] = false
any_offers n (x ∷ xs) = offers n x || any_offers n xs

-- The lines that say so of a number that is not there.
abbrev pub wrong : Screen → List Output
wrong main = wrong_device
wrong _ = wrong_action

-- The numbers on the lines of each menu.
abbrev choice : Screen → ℕ → Bool
choice main n = n == 1 || n == 2 || n == 3 || n == 4 || n == 5
choice light n = n == 1 || n == 2 || n == 3
choice washer n = n == 1 || n == 2 || n == 3
choice ended n = false

offered_choice : (m : Screen) (n : ℕ) → any_offers n (prompt m) ≡ choice m n
unfolding any_offers
offered_choice main n = ground arith
offered_choice light n = ground arith
offered_choice washer n = ground arith
offered_choice ended n = refl

reply-wrong : (m : Screen) (n : ℕ) → m ≢ ended → choice m n ≡ false → reply m n ≡ clear ++ wrong m
unfolding reply reply_menu reply_light reply_washer
reply-wrong main n o e = ground arith
reply-wrong light n o e = ground arith
reply-wrong washer n o e = ground arith
reply-wrong ended n o e = absurd (o refl)

reply-right : (m : Screen) (n : ℕ) → m ≢ ended → reply m n ≡ clear ++ wrong m → choice m n ≡ false
unfolding reply reply_menu reply_light reply_washer light_output washer_output
reply-right main n o e = ground arith
reply-right light n o e = ground arith
reply-right washer n o e = ground arith
reply-right ended n o e = absurd (o refl)

at_menu-wrong :
    (m : Screen) (n : ℕ) (s : Server)
    → at_menu m n s ≡ (if choice m n then at_menu m n s else some s)
unfolding call_menu call_light call_washer
at_menu-wrong main n s = ground arith
at_menu-wrong light n s = ground arith
at_menu-wrong washer n s = ground arith
at_menu-wrong ended n s = refl

-- While a menu is open, a typed number gets the reply that says it is wrong exactly if no line
-- that the menu printed starts with that number and a full stop, and in that case nothing else
-- happens.
pub messages-offered :
    (n : ℕ) (s : Server)
    → s.screen ≢ ended
    → ((any_offers n (prompt s.screen) ≡ false) ↔ (reply s.screen n ≡ clear ++ wrong s.screen))
      × (messages n s ≡ (if any_offers n (prompt s.screen) then messages n s else some s))
unfolding messages
messages-offered n s o =
    rw (offered_choice s.screen n)
      ((reply-wrong s.screen n o, reply-right s.screen n o), at_menu-wrong s.screen n s)
