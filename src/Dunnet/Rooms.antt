-- ===== src/Dunnet/Rooms.antt =====
-- worlds/dunnet.c: the rooms of the world module.
use netcosm.Base.{none, some, List, [], ◌∷◌}
use netcosm.Room.{RoomData}
use netcosm.Text.{Bytes, ascii}

abbrev pub dead_end : RoomData
dead_end = record {
  uniq_id = ascii "dead_end";
  name = ascii "Dead End";
  desc =
      ascii
        "You are at a dead end of a dirt road.  The road goes to the east. In the distance you can see that it will eventually fork off. The trees here are very tall royal palms, and they are spaced equidistant from each other.";
  adjacent =
      none
      ∷ none
      ∷ some (ascii "ew_road")
      ∷ none
      ∷ none
      ∷ none
      ∷ none
      ∷ none
      ∷ none
      ∷ none
      ∷ none
      ∷ none
      ∷ [];
}

abbrev pub ew_road : RoomData
ew_road = record {
  uniq_id = ascii "ew_road";
  name = ascii "E/W Dirt road";
  desc =
      ascii
        "You are on the continuation of a dirt road. There are more trees on both sides of you. The road continues to the east and west.";
  adjacent =
      none
      ∷ none
      ∷ some (ascii "fork")
      ∷ none
      ∷ none
      ∷ none
      ∷ some (ascii "dead_end")
      ∷ none
      ∷ none
      ∷ none
      ∷ none
      ∷ none
      ∷ [];
}

abbrev pub fork : RoomData
fork = record {
  uniq_id = ascii "fork";
  name = ascii "Fork";
  desc =
      ascii
        "You are at a fork of two passages, one to the northeast, and one to the southeast. The ground here seems very soft. You can also go back west.";
  adjacent =
      none
      ∷ some (ascii "nesw_road")
      ∷ none
      ∷ some (ascii "senw_road")
      ∷ none
      ∷ none
      ∷ some (ascii "ew_road")
      ∷ none
      ∷ none
      ∷ none
      ∷ none
      ∷ none
      ∷ [];
}

abbrev pub senw_road : RoomData
senw_road = record {
  uniq_id = ascii "senw_road";
  name = ascii "SE/NW road";
  desc = ascii "You are on a southeast/northwest road.";
  adjacent =
      none
      ∷ none
      ∷ none
      ∷ some (ascii "bear_hangout")
      ∷ none
      ∷ none
      ∷ none
      ∷ some (ascii "fork")
      ∷ none
      ∷ none
      ∷ none
      ∷ none
      ∷ [];
}

abbrev pub bear_hangout : RoomData
bear_hangout = record {
  uniq_id = ascii "bear_hangout";
  name = ascii "Bear Hangout";
  desc = ascii "You are standing at the end of a road. A passage leads back to the northwest.";
  adjacent =
      none
      ∷ none
      ∷ none
      ∷ none
      ∷ none
      ∷ some (ascii "hidden_area")
      ∷ none
      ∷ some (ascii "senw_road")
      ∷ none
      ∷ none
      ∷ none
      ∷ none
      ∷ [];
}

abbrev pub hidden_area : RoomData
hidden_area = record {
  uniq_id = ascii "hidden_area";
  name = ascii "Hidden Area";
  desc =
      ascii
        "You are in a well-hidden area off to the side of a road.  Back to the northeast through the brush you can see the bear hangout.";
  adjacent =
      none
      ∷ some (ascii "bear_hangout")
      ∷ none
      ∷ none
      ∷ none
      ∷ none
      ∷ none
      ∷ none
      ∷ none
      ∷ none
      ∷ none
      ∷ none
      ∷ [];
}

abbrev pub nesw_road : RoomData
nesw_road = record {
  uniq_id = ascii "nesw_road";
  name = ascii "NE/SW road";
  desc = ascii "You are on a northeast/southwest road.";
  adjacent =
      none
      ∷ some (ascii "building_front")
      ∷ none
      ∷ none
      ∷ none
      ∷ some (ascii "fork")
      ∷ none
      ∷ none
      ∷ none
      ∷ none
      ∷ none
      ∷ none
      ∷ [];
}

abbrev pub building_front : RoomData
building_front = record {
  uniq_id = ascii "building_front";
  name = ascii "Building Front";
  desc =
      ascii
        "You are at the end of the road.  There is a building in front of you to the northeast, and the road leads back to the southwest.";
  adjacent =
      none
      ∷ some (ascii "building_hallway")
      ∷ none
      ∷ none
      ∷ none
      ∷ some (ascii "nesw_road")
      ∷ none
      ∷ none
      ∷ none
      ∷ none
      ∷ some (ascii "building_hallway")
      ∷ none
      ∷ [];
}

abbrev pub building_hallway : RoomData
building_hallway = record {
  uniq_id = ascii "building_hallway";
  name = ascii "Old Building hallway";
  desc =
      ascii
        "You are in the hallway of an old building.  There are rooms to the east and west, and doors leading out to the north and south.";
  adjacent =
      none
      ∷ none
      ∷ some (ascii "mailroom")
      ∷ none
      ∷ some (ascii "building_front")
      ∷ none
      ∷ some (ascii "computer_room")
      ∷ none
      ∷ none
      ∷ none
      ∷ none
      ∷ some (ascii "building_front")
      ∷ [];
}

abbrev pub mailroom : RoomData
mailroom = record {
  uniq_id = ascii "mailroom";
  name = ascii "Mailroom";
  desc =
      ascii
        "You are in a mailroom.  There are many bins where the mail is usually kept.  The exit is to the west.";
  adjacent =
      none
      ∷ none
      ∷ none
      ∷ none
      ∷ none
      ∷ none
      ∷ some (ascii "building_hallway")
      ∷ none
      ∷ none
      ∷ none
      ∷ none
      ∷ none
      ∷ [];
}

abbrev pub computer_room : RoomData
computer_room = record {
  uniq_id = ascii "computer_room";
  name = ascii "Computer room";
  desc =
      ascii
        "You are in a computer room.  It seems like most of the equipment has been removed.  There is a VAX 11/780 in front of you, however, with one of the cabinets wide open.  A sign on the front of the machine says: This VAX is named 'pokey'.  To type on the console, use the 'type' command.  The exit is to the east.\nThe panel lights are steady and motionless.";
  adjacent =
      none
      ∷ none
      ∷ some (ascii "building_hallway")
      ∷ none
      ∷ none
      ∷ none
      ∷ none
      ∷ none
      ∷ none
      ∷ none
      ∷ none
      ∷ none
      ∷ [];
}

-- netcosm_world
abbrev pub netcosm_world : List RoomData
netcosm_world =
    dead_end ∷ ew_road ∷ fork ∷ senw_road ∷ bear_hangout ∷ hidden_area ∷ nesw_road ∷ building_front
    ∷ building_hallway ∷ mailroom ∷ computer_room ∷ []

abbrev pub netcosm_world_name : Bytes
netcosm_world_name = ascii "Dunnet 0.1"
