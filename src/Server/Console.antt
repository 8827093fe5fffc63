-- ===== src/Server/Console.antt =====
-- ControlServer/BrokerAndControlServer.c: what the menu prints. `prompt` is what a function prints before scanf
-- reads a number, and `reply` what follows it until the next prompt.
use embedded_project_exam.Base.{ℕ, ◌++◌, List, [], ◌∷◌, ◌==◌, if◌then◌else◌, codes}
use embedded_project_exam.Server.{Screen, main, light, washer, ended}

-- A call of printf, of system("clear") or "cls", and of system("pause").
pub data Output : Type 0 where
  printed : List ℕ → Output
  cleared paused : Output

-- clear
abbrev pub clear : List Output
clear = Output.cleared ∷ []

-- callMenu, up to scanf
abbrev pub prompt_menu : List Output
prompt_menu =
    Output.printed (codes "This is the menu, choose a device to manage (1-5) \n")
    ∷ Output.printed (codes "********************************************************** \n")
    ∷ Output.printed (codes "1. The connected light \n")
    ∷ Output.printed (codes "2. The connected washer \n")
    ∷ Output.printed (codes "3. Check the gaz sensor state \n")
    ∷ Output.printed (codes "4. Check the alarm state \n")
    ∷ Output.printed (codes "5. Stop the program \n")
    ∷ Output.printed (codes "********************************************************** \n")
    ∷ []

-- callLight, up to scanf
abbrev pub prompt_light : List Output
prompt_light =
    Output.printed (codes "CONNECTED LIGHT \n")
    ∷ Output.printed (codes "Choose a action (1-3) : \n")
    ∷ Output.printed (codes "################################### \n")
    ∷ Output.printed (codes "1. ON \n")
    ∷ Output.printed (codes "2. OFF \n")
    ∷ Output.printed (codes "3. Return in menu \n")
    ∷ Output.printed (codes "################################### \n")
    ∷ []

-- callWasher, up to scanf
abbrev pub prompt_washer : List Output
prompt_washer =
    Output.printed (codes "CONNECTED WASHER \n")
    ∷ Output.printed (codes "----------------------------------------------------------- \n")
    ∷ Output.printed (
        codes "|The current state is : "
        ++ codes "ON"
        ++ codes "                                | \n")
    ∷ Output.printed (codes "----------------------------------------------------------- \n \n")
    ∷ Output.printed (codes "Choose a action (1-3) : \n")
    ∷ Output.printed (codes "################################### \n")
    ∷ Output.printed (codes "1. Run a new cycle \n")
    ∷ Output.printed (codes "2. Stop the current cycle \n")
    ∷ Output.printed (codes "3. Return in menu \n")
    ∷ Output.printed (codes "################################### \n")
    ∷ []

-- callGazSensor
abbrev pub call_gaz_sensor : List Output
call_gaz_sensor =
    Output.printed (codes "GAZ SENSOR STATUS \n")
    ∷ Output.printed (codes "The current value is represented between 200 to 10000ppm \n")
    ∷ Output.printed (codes "The threshold to not exceed is 400ppm: \n")
    ∷ Output.printed (codes "----------------------------------------------------------- \n")
    ∷ Output.printed (
        codes "|The current value is :  "
        ++ codes "5"
        ++ codes " ppm                            | \n")
    ∷ Output.printed (codes "----------------------------------------------------------- \n")
    ∷ Output.printed (codes "--------------------------------------- \n")
    ∷ Output.printed (codes "Enter to return in the main menu... \n")
    ∷ Output.printed (codes "--------------------------------------- \n")
    ∷ Output.paused
    ∷ []

-- callAlarm
abbrev pub call_alarm : List Output
call_alarm =
    Output.printed (codes "ALARM STATUS \n")
    ∷ Output.printed (codes "----------------------------------------------------------- \n")
    ∷ Output.printed (
        codes "|The current value is :  "
        ++ codes "OFF"
        ++ codes "                              | \n")
    ∷ Output.printed (codes "----------------------------------------------------------- \n")
    ∷ Output.printed (codes "--------------------------------------- \n")
    ∷ Output.printed (codes "Enter to return in the main menu... \n")
    ∷ Output.printed (codes "--------------------------------------- \n")
    ∷ Output.paused
    ∷ []

-- Three lines, the middle one given.
abbrev pub framed : List ℕ → List ℕ → List ℕ → List Output
framed above message below =
    Output.printed above ∷ Output.printed message ∷ Output.printed below ∷ []

abbrev pub boxed : List ℕ → List Output
boxed message =
    framed (codes "---------------------------- \n") message
      (codes "---------------------------- \n \n")

-- sendCommandToLight
unfoldable pub light_output : ℕ → List Output
light_output result =
    if result == 1
    then boxed (codes "The light is switching ON \n")
    else if result == 2
    then boxed (codes "The light is switching OFF \n")
    else []

-- sendCommandToWasher
unfoldable pub washer_output : ℕ → List Output
washer_output result =
    if result == 1
    then boxed (codes "A new cycle is sending... \n")
    else if result == 2
    then framed (codes "----------------------------------- \n")
        (codes "The current cycle is stopping... \n")
        (codes "----------------------------------- \n \n")
    else []

-- The default of callLight and callWasher.
abbrev pub wrong_action : List Output
wrong_action = boxed (codes "Enter a correct number \n")

-- The default of `messages`.
abbrev pub wrong_device : List Output
wrong_device =
    framed (codes "---------------------------------------- \n")
      (codes "Please enter a number between 1 and 5 \n")
      (codes "---------------------------------------- \n \n")

-- The switch of `messages`, after callMenu.
unfoldable pub reply_menu : ℕ → List Output
reply_menu response =
    if response == 1
    then []
    else if response == 2
    then []
    else if response == 3
    then call_gaz_sensor ++ clear
    else if response == 4
    then call_alarm ++ clear
    else if response == 5
    then framed (codes "---------------------- \n") (codes "End of program \n")
        (codes "---------------------- \n")
    else wrong_device

-- The switch of callLight.
unfoldable pub reply_light : ℕ → List Output
unfolding light_output
reply_light result =
    if result == 1
    then light_output result
    else if result == 2
    then light_output result
    else if result == 3
    then []
    else wrong_action

-- The switch of callWasher.
unfoldable pub reply_washer : ℕ → List Output
unfolding washer_output
reply_washer result =
    if result == 1
    then washer_output result
    else if result == 2
    then washer_output result
    else if result == 3
    then []
    else wrong_action

abbrev pub prompt : Screen → List Output
prompt main = prompt_menu
prompt light = prompt_light
prompt washer = prompt_washer
prompt ended = []

-- scanf has read a number, and the screen is cleared.
unfoldable pub reply : Screen → ℕ → List Output
unfolding reply_menu reply_light reply_washer
reply main n = clear ++ reply_menu n
reply light n = clear ++ reply_light n
reply washer n = clear ++ reply_washer n
reply ended n = []
